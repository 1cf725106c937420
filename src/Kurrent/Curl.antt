-- ===== src/Kurrent/Curl.antt =====
-- The libcurl library as a parameter: handles, requests and answers.
use bacnet_event_server.Base.{ℕ, Bool, List, Option, Bytes}

-- A request: `method` is the custom request or POST, and `login` the user with the password.
pub data Method : Type 0 where
  get put post : Method

pub record Request : Type 0 where
  pub url : Bytes
  pub method : Method
  pub headers : List Bytes
  pub body : Bytes
  pub login : Option Bytes

-- The CURLcode (CURLE_OK is 0), the HTTP status, and the body that curl_write_callback has collected.
pub record Answer : Type 0 where
  pub code : ℕ
  pub http_code : ℕ
  pub body : Bytes

-- curl_easy_init answers whether there is a handle; `is_running` reads the flags that other threads
-- clear, between two rounds of a loop.
pub record Curl (W : Type 0) : Type 0 where
  pub easy_init : W → W × Bool
  pub perform : W → Request → W × Answer
  pub is_running : W → Bool
