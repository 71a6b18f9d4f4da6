-- ===== src/Prelude/Remote.antt =====
-- The namespaces of named remote objects that apps/worker/src calls (Cloudflare Durable Objects): one
-- state for each name, and what becomes of a remote call.
use mathlib.Core.Path.{◌≡◌}
use mathlib.Core.Bool.{Bool, true, false}
use Prim.Native.String.{String}
use native.Mathlib.Omega.{arith}
use hyeboard.Prelude.Tests.{if◌then◌else◌}
use hyeboard.Prelude.Texts.{str_eq, str_eq_iff}

-- A call is answered, never arrives, or runs and its reply is lost.
pub data Rpc : Type 0 where
  answered never_sent reply_lost : Rpc

abbrev pub is_sent : Rpc → Bool
is_sent never_sent = false
is_sent _ = true

abbrev pub put {ℓ} : {S : Type ℓ} → (String → S) → String → S → String → S
put ns key s k = if str_eq key k then s else ns k

pub put_self {ℓ} : {S : Type ℓ} (ns : String → S) (key : String) (s : S) → put ns key s key ≡ s
put_self ns key s = ground (arith, str_eq_iff key key)
