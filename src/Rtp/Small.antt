-- ===== src/Rtp/Small.antt =====
-- src/rtp/mod.rs: the MTUs that `with_mtu` takes although no packet can be made with them.
use relaybay.Base.{
  ℕ, ◌-◌, ◌^◌, ◌<◌, ◌≤◌, ◌≡◌, refl, Bool, true, false, [], ◌∷◌, ◌++◌, Bytes, length, arith, ◌↔◌,
  ◌⊎◌, eqb, if◌then◌else◌,
}
use relaybay.Base.{gt→leb, ge→ltb}
use relaybay.Base.Outcome.{Outcome, ok, err, spent, panic, ◌>>=◌}
use relaybay.Codec.H264.{Nal}
use relaybay.Rtp.{Stream, RtpError, header_size, budget, less, timestamp, with_mtu}
use relaybay.Rtp.H264
use relaybay.Rtp.Aac

-- What makes the size of a piece panic: nothing left to divide by, or, where it is checked, less.
abbrev pub Panics : Bool → ℕ → ℕ → Type 0
Panics checks room prefix = (room ≡ prefix) ⊎ (checks ≡ true) × (room < prefix)

less-panic_iff :
    {R : Type 0} (checks : Bool) (room prefix : ℕ) (made : ℕ → R)
    → prefix < 2 ^ 64
    → ((less checks room prefix >>= λ size. if eqb size 0 then panic else ok (made size)) ≡ panic)
      ↔ Panics checks room prefix
unfolding less
less-panic_iff true room prefix made h = ground arith
less-panic_iff false room prefix made h = ground arith

bind-panic_iff :
    {R S : Type 0} (m : Outcome RtpError R) (next : R → S)
    → ((m >>= λ r. ok (next r)) ≡ panic) ↔ (m ≡ panic)
bind-panic_iff (ok r) next = (λ e. cc, λ e. cc)
bind-panic_iff (err why) next = (λ e. cc, λ e. cc)
bind-panic_iff panic next = (λ e. refl, λ e. refl)
bind-panic_iff spent next = (λ e. cc, λ e. cc)

fragment-panic_iff :
    (checks : Bool) (s : Stream) (last : Bool) (stamp : ℕ) (unit : Bytes)
    → 0 < length unit
    → (H264.fragment checks s last stamp unit ≡ panic) ↔ Panics checks (budget s) 2
unfolding H264.fragment
fragment-panic_iff checks s last stamp [] h = absurd (omega arith)
fragment-panic_iff checks s last stamp (first ∷ body) h =
    less-panic_iff checks (budget s) 2 _ (omega arith)

-- `with_mtu` takes any MTU of more than the twelve bytes of the header. With it, an H.264 unit that has
-- to be cut panics exactly where two bytes of room are left behind the header, in every build, or where
-- less are, in a build with overflow checks; and an AAC access unit of up to 8191 bytes panics exactly
-- where four bytes are left, or, with overflow checks, less.
pub with_mtu-panic_iff :
    (checks : Bool) (s : Stream) (mtu at : ℕ) (n : Nal) (frame : Bytes)
    → header_size < mtu
    → mtu - header_size < length n.contents
    → length frame ≤ Aac.max_access_unit
    → (s' : Stream) × (with_mtu s mtu ≡ ok s')
      × ((H264.packetize checks s' (n ∷ []) at ≡ panic) ↔ Panics checks (mtu - header_size) 2)
      × ((Aac.packetize checks s' frame at ≡ panic)
          ↔ Panics checks (mtu - header_size) Aac.prefix_size)
unfolding with_mtu budget H264.packetize H264.packetize_loop H264.packetize_unit Aac.packetize
with_mtu-panic_iff checks s mtu at n frame above long fits =
    let s' = record s { mtu = mtu } in
    let cut = fragment-panic_iff checks s' true (timestamp s' at) n.contents (omega arith) in
    let longer : budget s' < length n.contents = omega arith in
    let small : Aac.prefix_size < 2 ^ 64 = omega arith in
    let bound =
      bind-panic_iff (H264.fragment checks s' true (timestamp s' at) n.contents)
        (λ (ps, s₁). (ps ++ [], s₁)) in
    (
      s',
      rw (gt→leb mtu header_size above) refl,
      rw (gt→leb (length n.contents) (budget s') longer)
          ((λ e. cut.0 (bound.0 e), λ e. bound.1 (cut.1 e))),
      rw (ge→ltb Aac.max_access_unit (length frame) fits)
          (less-panic_iff checks (budget s') Aac.prefix_size _ small),
    )
