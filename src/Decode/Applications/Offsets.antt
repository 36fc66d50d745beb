-- ===== src/Decode/Applications/Offsets.antt =====
-- Where `decodeL7` of src/decoder.cpp returns, and how far it moves its offset.
use fdpi.Base.{◌≡◌, ℕ, ◌≤◌, Bool, true, false, Option, none, some}
use fdpi.Wire.Ensures.{Ends}
use fdpi.Flow.{AppProtocol}
use fdpi.Decode.Applications.{tls, rdp, dns}
use fdpi.Wire.Bounded.{Bounded}

-- The decoders that may read outside the bytes, or run for ever.
unfoldable pub may_not_return : AppProtocol → Bool
may_not_return AppProtocol.tls = true
may_not_return AppProtocol.rdp = true
may_not_return AppProtocol.dns = true
may_not_return AppProtocol.mdns = true
may_not_return AppProtocol.llmnr = true
may_not_return _ = false

-- The call returns without a message, or with a message whose offset is at most `hi`; only the
-- decoders of some protocols may not return.
pub data Returns {St A : Type 0} (hi : ℕ) (protocol : AppProtocol)
    : Option (St × Option (A × ℕ)) → Type 0 where
  no_message : {s : St} → Returns hi protocol (some (s, none))
  message : {s : St} {a : A} {o : ℕ} → o ≤ hi → Returns hi protocol (some (s, some (a, o)))
  unreturned : may_not_return protocol ≡ true → Returns hi protocol none

-- A message beside the state of the flows.
data Leaves {St A : Type 0} (hi : ℕ) : St × Option (A × ℕ) → Type 0 where
  nothing : {s : St} → Leaves hi (s, none)
  something : {s : St} {a : A} {o : ℕ} → o ≤ hi → Leaves hi (s, some (a, o))
