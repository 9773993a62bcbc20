-- ===== src/Log.antt =====
-- include/eshet/log.hpp. What the callbacks do is a list of effects: a line on the standard error is
-- its bytes. The mutex makes each call one step.
use eshetcpp.Base.{List, [], ◌∷◌, ◌++◌, ◌==◌, if◌then◌else◌}
use eshetcpp.Base.Bytes.{Bytes}
use eshetcpp.Base.Text.{codes}

pub record LogCallbacks : Type 0 where
  pub on_debug : Bytes → List Bytes
  pub on_error : Bytes → List Bytes

-- c_str(): the bytes before the first zero
unfoldable pub c_str : Bytes → Bytes
c_str [] = []
c_str (c ∷ cs) = let rest = c_str cs in if c == 0 then [] else c ∷ rest

-- `fprintf(stderr, "eshet: %s\n", s.c_str());`
unfoldable pub stderr_line : Bytes → Bytes
unfolding c_str
stderr_line s = codes "eshet: " ++ (c_str s ++ 10 ∷ [])

abbrev pub default_callbacks : LogCallbacks
default_callbacks = record {
  on_debug = λ s. stderr_line s ∷ [];
  on_error = λ s. stderr_line s ∷ [];
}

pub record Logger : Type 0 where
  pub log_callbacks : LogCallbacks

abbrev pub new_logger : Logger
new_logger = record { log_callbacks = default_callbacks }

unfoldable pub set_log_callbacks : LogCallbacks → Logger → Logger
set_log_callbacks new_log_callbacks l = record l { log_callbacks = new_log_callbacks }

unfoldable pub debug : Bytes → Logger → List Bytes
debug s l = l.log_callbacks.on_debug s

unfoldable pub error : Bytes → Logger → List Bytes
error s l = l.log_callbacks.on_error s
