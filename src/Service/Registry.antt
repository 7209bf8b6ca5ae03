-- ===== src/Service/Registry.antt =====
-- iotservice/registry.go: the records of the device registry. A Go `int` that the source only
-- carries is a number here, a pointer an `Option`, and a `map[string]interface{}` a dictionary.
use golang_iothub.Base.{ℕ, Option, Bytes, Dict}
use golang_iothub.Base.Json.{Json}

-- Result is a direct-method call result.
pub record CallResult : Type 0 where
  pub status : ℕ
  pub payload : Dict Json

pub record SymmetricKey : Type 0 where
  pub primary_key : Bytes
  pub secondary_key : Bytes

pub record X509Thumbprint : Type 0 where
  pub primary_thumbprint : Bytes
  pub secondary_thumbprint : Bytes

pub record Authentication : Type 0 where
  pub symmetric_key : Option SymmetricKey
  pub x509_thumbprint : Option X509Thumbprint
  pub auth_type : Bytes

pub record Device : Type 0 where
  pub device_id : Bytes
  pub generation_id : Bytes
  pub etag : Bytes
  pub connection_state : Bytes
  pub status : Bytes
  pub status_reason : Bytes
  pub connection_state_updated_time : Bytes
  pub status_updated_time : Bytes
  pub last_activity_time : Bytes
  pub cloud_to_device_message_count : ℕ
  pub authentication : Option Authentication
  pub capabilities : Dict Json

pub record Properties : Type 0 where
  pub desired : Dict Json
  pub reported : Dict Json

pub record Twin : Type 0 where
  pub device_id : Bytes
  pub etag : Bytes
  pub device_etag : Bytes
  pub status : Bytes
  pub status_reason : Bytes
  pub status_update_time : Bytes
  pub connection_state : Bytes
  pub last_activity_time : Bytes
  pub cloud_to_device_message_count : ℕ
  pub authentication_type : Bytes
  pub x509_thumbprint : Option X509Thumbprint
  pub version : ℕ
  pub tags : Dict Json
  pub properties : Option Properties
  pub capabilities : Dict Json

pub record Stats : Type 0 where
  pub disabled_device_count : ℕ
  pub enabled_device_count : ℕ
  pub total_device_count : ℕ
