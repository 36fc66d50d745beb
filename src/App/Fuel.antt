-- ===== src/App/Fuel.antt =====
-- The loops of the decoders under src/protocol/ have fuel enough: with more of it they give the same.
use fdpi.Base.{
  ℕ, zero, suc, ◌+◌, ◌*◌, ◌/◌, ◌≤◌, ◌≡◌, refl, Bool, true, false, Option, none, some, length, ltb,
  leb, ◌==◌, arith, if◌then◌else◌,
}
use fdpi.Wire.{Bytes, Outcome, ok, err, fault, ◌>>=◌, and_then}
use fdpi.App.Dhcp.{
  DhcpOptions, note_option, dhcp_options, Dhcpv6Options, note_option6, dhcpv6_options,
}
use fdpi.App.Netbios.{scope_labels}
use fdpi.App.Stun.{Stun, stun_attributes}

-- Equal outcomes, with a rule for each shape of a loop's round.
pub data Same {A : Type 0} : Outcome A → Outcome A → Type 0 where
  same : {m : Outcome A} → Same m m

Same-path : {A : Type 0} {m m' : Outcome A} → Same m m' → m ≡ m'
Same-path same = refl

Same-sym : {A : Type 0} {m m' : Outcome A} → Same m m' → Same m' m
Same-sym same = same

-- A test that fails needs no fuel.
if-stop :
    {A : Type 0} (b : Bool) (x : Outcome A) {y : Outcome A}
    → b ≡ false
    → Same y (if b then x else y)
if-stop true x h = absurd cc
if-stop false x h = same

if-first :
    {A : Type 0} (b : Bool) {x : Outcome A} (y : Outcome A) → b ≡ true → Same x (if b then x else y)
if-first true y h = same
if-first false y h = absurd cc

if-cong :
    {A : Type 0} (b : Bool) {x x' : Outcome A} (y : Outcome A)
    → (b ≡ true → Same x x')
    → Same (if b then x else y) (if b then x' else y)
if-cong true y t = t refl
if-cong false y t = same

else-cong :
    {A : Type 0} (b : Bool) (x : Outcome A) {y y' : Outcome A}
    → (b ≡ false → Same y y')
    → Same (if b then x else y) (if b then x else y')
else-cong true x f = same
else-cong false x f = f refl

both-cong :
    {A : Type 0} (b : Bool) {x x' y y' : Outcome A}
    → Same x x'
    → Same y y'
    → Same (if b then x else y) (if b then x' else y')
both-cong true t f = t
both-cong false t f = f

module _ {A B : Type 0} where
  bind-cong :
      (m : Option B) {f g : B → Outcome A} → ((b : B) → Same (f b) (g b)) → Same (m >>= f) (m >>= g)
  unfolding ◌>>=◌
  bind-cong none h = same
  bind-cong (some b) h = h b

  and_then-cong :
      (m : Outcome B) {f g : B → ℕ → Outcome A}
      → ((b : B) (o : ℕ) → Same (f b o) (g b o))
      → Same (and_then m f) (and_then m g)
  unfolding and_then
  and_then-cong (ok b o) h = h b o
  and_then-cong (err e o) h = same
  and_then-cong fault h = same

  result-cong :
      {m m' : Outcome B} (f : B → ℕ → Outcome A) → Same m m' → Same (and_then m f) (and_then m' f)
  result-cong f same = same

stun_attributes-fuel :
    (n m : ℕ) (data' : Bytes) (o attr_end : ℕ) (hdr : Stun)
    → attr_end ≤ o + n
    → attr_end ≤ o + m
    → Same (stun_attributes n data' o attr_end hdr) (stun_attributes m data' o attr_end hdr)
unfolding stun_attributes
stun_attributes-fuel zero zero data' o attr_end hdr h h' = same
stun_attributes-fuel zero (suc m) data' o attr_end hdr h h' =
    if-stop (leb (o + 4) attr_end) _ (ground arith)
stun_attributes-fuel (suc n) zero data' o attr_end hdr h h' =
    Same-sym (if-stop (leb (o + 4) attr_end) _ (ground arith))
stun_attributes-fuel (suc n) (suc m) data' o attr_end hdr h h' =
    if-cong (leb (o + 4) attr_end) _ λ more. bind-cong _ λ type. bind-cong _ λ len.
      else-cong (ltb attr_end (o + 4 + len)) _ λ fits. and_then-cong _ λ hdr' _.
        stun_attributes-fuel n m data' (o + 4 + (len + 3) / 4 * 4) attr_end hdr' (omega arith)
          (omega arith)

dhcp_options-fuel :
    (n m : ℕ) (p : Bytes) (o : ℕ) (told : DhcpOptions)
    → length p ≤ o + n
    → length p ≤ o + m
    → Same (dhcp_options n p o told) (dhcp_options m p o told)
unfolding dhcp_options
dhcp_options-fuel zero zero p o told h h' = same
dhcp_options-fuel zero (suc m) p o told h h' = if-stop (ltb o (length p)) _ (ground arith)
dhcp_options-fuel (suc n) zero p o told h h' =
    Same-sym (if-stop (ltb o (length p)) _ (ground arith))
dhcp_options-fuel (suc n) (suc m) p o told h h' = if-cong (ltb o (length p)) _ λ more.
    bind-cong _ λ code. else-cong (code == 255) _ λ _.
      both-cong (code == 0) (dhcp_options-fuel n m p (o + 1) told (omega arith) (omega arith)) (
        else-cong (leb (length p) (o + 1)) _ λ _. bind-cong _ λ len.
          else-cong (ltb (length p) (o + 2 + len)) _ λ _. bind-cong _ λ body.
            dhcp_options-fuel n m p (o + 2 + len) (note_option told code body) (omega arith)
              (omega arith))

dhcpv6_options-fuel :
    (n m : ℕ) (p : Bytes) (o : ℕ) (told : Dhcpv6Options)
    → length p ≤ o + n
    → length p ≤ o + m
    → Same (dhcpv6_options n p o told) (dhcpv6_options m p o told)
unfolding dhcpv6_options
dhcpv6_options-fuel zero zero p o told h h' = same
dhcpv6_options-fuel zero (suc m) p o told h h' = if-stop (leb (o + 4) (length p)) _ (ground arith)
dhcpv6_options-fuel (suc n) zero p o told h h' =
    Same-sym (if-stop (leb (o + 4) (length p)) _ (ground arith))
dhcpv6_options-fuel (suc n) (suc m) p o told h h' = if-cong (leb (o + 4) (length p)) _ λ more.
    bind-cong _ λ type. bind-cong _ λ len. else-cong (ltb (length p) (o + 4 + len)) _ λ _.
      bind-cong _ λ body.
        dhcpv6_options-fuel n m p (o + 4 + len) (note_option6 told type body) (omega arith)
          (omega arith)

scope_labels-fuel :
    (n m : ℕ) (data' : Bytes) (o : ℕ) (result : Bytes)
    → length data' ≤ o + n
    → length data' ≤ o + m
    → Same (scope_labels n data' o result) (scope_labels m data' o result)
unfolding scope_labels
scope_labels-fuel zero zero data' o result h h' = same
scope_labels-fuel zero (suc m) data' o result h h' =
    if-first (leb (length data') o) _ (ground arith)
scope_labels-fuel (suc n) zero data' o result h h' =
    Same-sym (if-first (leb (length data') o) _ (ground arith))
scope_labels-fuel (suc n) (suc m) data' o result h h' = else-cong (leb (length data') o) _ λ _.
    bind-cong _ λ len. else-cong (len == 0) _ λ _.
      else-cong (ltb (length data') (o + 1 + len)) _ λ _.
        bind-cong _ λ label. scope_labels-fuel n m data' (o + 1 + len) _ (omega arith) (omega arith)
