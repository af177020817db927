-- ===== src/Core/Config.antt =====
-- `Settings` of backend/app/core/config.py: its fields, defaults and bounds, and the two URLs that are
-- built from them. How pydantic reads the environment is not modelled.
pub mod Quote
mod Client
mod Split
mod Bytes
mod Urls
mod Tests
use llm_inference_logger.Prelude.{
  ℕ, String, Bool, true, false, ◌&&◌, Option, none, some, [], ◌∷◌, ◌++◌, Text, codes, leb, decimal,
}
use llm_inference_logger.Core.Config.Quote.{quote}
use llm_inference_logger.Prelude.Outcome.{Result, ok, err}
use llm_inference_logger.Core.Errors.{Exn}

pub data AppEnv : Type 0 where
  local docker production : AppEnv

pub data EventBusBackend : Type 0 where
  redis memory : EventBusBackend

pub data LogLevel : Type 0 where
  debug info warning error : LogLevel

pub data LogFormat : Type 0 where
  console json : LogFormat

-- What goes into a URL is a text; a port is a number that is not negative.
pub record Settings : Type 0 where
  pub app_env : AppEnv
  pub log_level : LogLevel
  pub log_format : LogFormat
  pub postgres_user : Text
  pub postgres_password : Text
  pub postgres_db : Text
  pub postgres_host : Text
  pub postgres_port : ℕ
  pub redis_host : Text
  pub redis_port : ℕ
  pub redis_password : Option Text
  pub event_bus_backend : EventBusBackend
  pub event_stream_name : String
  pub event_stream_dlq : String
  pub event_consumer_group : String
  pub event_publish_timeout_ms : ℕ
  pub event_stream_maxlen : ℕ
  pub anthropic_api_key : Option String
  pub openai_api_key : Option String
  pub default_provider : String
  pub default_anthropic_model : String
  pub default_openai_model : String
  pub groq_api_key : Option String
  pub groq_base_url : String
  pub default_groq_model : String
  pub groq_max_output_tokens : ℕ
  pub gemini_api_key : Option String
  pub gemini_base_url : String
  pub default_gemini_model : String
  pub ollama_enabled : Bool
  pub ollama_base_url : String
  pub default_ollama_model : String
  pub max_output_tokens : ℕ
  pub max_history_messages : ℕ
  pub max_history_chars : ℕ
  pub preview_max_chars : ℕ
  pub redaction_enabled : Bool

-- The `ge` of the fields. That of `preview_max_chars` is 0.
unfoldable pub in_bounds : Settings → Bool
in_bounds s =
    leb 1 s.event_publish_timeout_ms
    && leb 1000 s.event_stream_maxlen
    && leb 256 s.groq_max_output_tokens
    && leb 256 s.max_output_tokens
    && leb 2 s.max_history_messages
    && leb 1000 s.max_history_chars

-- The settings of an environment that sets none.
abbrev pub default_settings : Settings
default_settings = record {
  app_env = local;
  log_level = info;
  log_format = console;
  postgres_user = codes "llm";
  postgres_password = codes "llm";
  postgres_db = codes "llm_logger";
  postgres_host = codes "localhost";
  postgres_port = 5432;
  redis_host = codes "localhost";
  redis_port = 6379;
  redis_password = none;
  event_bus_backend = redis;
  event_stream_name = "inference_logs";
  event_stream_dlq = "inference_logs:dlq";
  event_consumer_group = "ingestors";
  event_publish_timeout_ms = 200;
  event_stream_maxlen = 100000;
  anthropic_api_key = none;
  openai_api_key = none;
  default_provider = "mock";
  default_anthropic_model = "claude-opus-5";
  default_openai_model = "gpt-4o";
  groq_api_key = none;
  groq_base_url = "https://api.groq.com/openai/v1";
  default_groq_model = "openai/gpt-oss-20b";
  groq_max_output_tokens = 4096;
  gemini_api_key = none;
  gemini_base_url = "https://generativelanguage.googleapis.com/v1beta/openai/";
  default_gemini_model = "gemini-flash-latest";
  ollama_enabled = false;
  ollama_base_url = "http://localhost:11434/v1";
  default_ollama_model = "llama3.2";
  max_output_tokens = 16000;
  max_history_messages = 20;
  max_history_chars = 12000;
  preview_max_chars = 500;
  redaction_enabled = true;
}

-- `f"{port}"`
unfoldable pub shown : ℕ → Text
unfolding decimal
shown n = codes (decimal n)

-- `database_url`
unfoldable pub database_url : Settings → Text
unfolding shown
database_url s =
    codes "postgresql+asyncpg://"
    ++ (s.postgres_user
        ++ (codes ":"
            ++ (s.postgres_password
                ++ (codes "@"
                    ++ (s.postgres_host
                        ++ (codes ":"
                            ++ (shown s.postgres_port ++ (codes "/" ++ s.postgres_db))))))))

-- `f":{quote(self.redis_password, safe='')}@" if self.redis_password else ""`
abbrev pub auth : Option Text → Result Exn Text
auth none = ok []
auth (some []) = ok []
auth (some (c ∷ p)) = elim (quote (c ∷ p)) [
  | ok quoted ↦ ok (codes ":" ++ (quoted ++ codes "@"))
  | err e ↦ err e
]

abbrev pub url_of : Text → Settings → Text
url_of user s =
    codes "redis://"
    ++ (user ++ (s.redis_host ++ (codes ":" ++ (shown s.redis_port ++ codes "/0"))))

-- `redis_url`
unfoldable pub redis_url : Settings → Result Exn Text
redis_url s = elim (auth s.redis_password) [ ok user ↦ ok (url_of user s) | err e ↦ err e ]
