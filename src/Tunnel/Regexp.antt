-- ===== src/Tunnel/Regexp.antt =====
-- What the source uses of Go's package regexp. The engine is not modelled: it is a parameter, and
-- every theorem holds for any such functions.
use mylittleproxy.Base.{Bytes, Bool, Option}

-- `Regex` is the type `*regexp.Regexp`; `compile` is `none` where `regexp.Compile` gives an error.
pub record Regexp : Type 1 where
  pub Regex : Type 0
  pub compile : Bytes → Option Regex
  pub match_string : Regex → Bytes → Bool
  pub replace_all_string : Regex → Bytes → Bytes → Bytes
