-- ===== src/Rtmp/Session/Running.antt =====
-- A command to src/rtmp/session.rs leaves a session valid, and is answered in the right order.
use relaybay.Base.{ℕ, zero, suc, ◌<◌, ◌≤◌, ◌^◌, Bool, Option, none, some, ◌>>=◌}
use relaybay.Base.{
  List, [], ◌∷◌, Bytes, length, arith, is_empty, ◌||◌, All, IsByte, Bool-cases, inl, inr,
}
use relaybay.Base.Outcome.{Outcome, Ensures, returns, fails, Ensures->>=, Ensures-if}
use relaybay.Rtmp.Amf0.Fits.{FitsValue, FitsValues}
use relaybay.Rtmp.Amf0.Total.{read_all-FitsValues}
use relaybay.Rtmp.Amf0.Types.{
  Value, Values, number, boolean, string, object, ecma_array, strict_array, date, null, undefined,
  no_values, item, as_str, as_f64, same_bytes, Amf0Error,
}
use relaybay.Rtmp.Session.Answers.{
  connect_replies-IsReplies, create_stream_replies-IsReplies, publish_replies-IsReplies,
}
use relaybay.Rtmp.Session.Commands.{
  value_at, trim_start, trim_end, trim_matches, before_mark, stream_key, connect_to, connect,
  publish_key, publish_to, publish, close, run_command, named_command, command, of_amf0,
  transaction_or_zero,
}
use relaybay.Rtmp.Session.Words.{
  connect_name, create_stream_name, publish_name, delete_stream_name, close_stream_name,
  fc_unpublish_name,
}
use relaybay.Rtmp.Session.Protocol.{Follows, nothing, ends, OptAll, announced, IsValid}
use relaybay.Rtmp.Session.Types.{Action, Session, is_publishing}

-- What a step of a session comes to.
abbrev pub IsStep : Session → List Action × Session → Type 0
IsStep s (actions, s') = IsValid s' × Follows (announced s) actions (announced s')

module _ (is_utf8 : Bytes → Bool) where
  value_at-OptAll :
      (vs : Values) (i : ℕ) → FitsValues is_utf8 0 vs → OptAll (FitsValue is_utf8 0) (value_at vs i)
  unfolding value_at FitsValue
  value_at-OptAll no_values i h = tt
  value_at-OptAll (item v vs) zero h = h.0
  value_at-OptAll (item v vs) (suc i) h = value_at-OptAll vs i h.1

  number-fits :
      (v : Option Value)
      → OptAll (FitsValue is_utf8 0) v
      → transaction_or_zero (v >>= as_f64) < 2 ^ 64
  unfolding as_f64 FitsValue
  number-fits none h = omega arith
  number-fits (some (number bits)) h = h
  number-fits (some (boolean flag)) h = omega arith
  number-fits (some (string text)) h = omega arith
  number-fits (some (object ps)) h = omega arith
  number-fits (some (ecma_array ps)) h = omega arith
  number-fits (some (strict_array vs)) h = omega arith
  number-fits (some (date millis)) h = omega arith
  number-fits (some null) h = omega arith
  number-fits (some undefined) h = omega arith

  text-fits :
      (v : Option Value)
      → OptAll (FitsValue is_utf8 0) v
      → OptAll (λ text. length text < 2 ^ 32) (v >>= as_str)
  unfolding as_str FitsValue
  text-fits none h = tt
  text-fits (some (number bits)) h = tt
  text-fits (some (boolean flag)) h = tt
  text-fits (some (string text)) h = h.1
  text-fits (some (object ps)) h = tt
  text-fits (some (ecma_array ps)) h = tt
  text-fits (some (strict_array vs)) h = tt
  text-fits (some (date millis)) h = tt
  text-fits (some null) h = tt
  text-fits (some undefined) h = tt

length-trim_start : (mark : ℕ) (bs : Bytes) → length (trim_start mark bs) ≤ length bs
unfolding trim_start
length-trim_start mark [] = omega arith
length-trim_start mark (b ∷ bs) = ground (arith, length-trim_start mark bs)

length-trim_end : (mark : ℕ) (bs : Bytes) → length (trim_end mark bs) ≤ length bs
unfolding trim_end
length-trim_end mark [] = omega arith
length-trim_end mark (b ∷ bs) = ground (arith, length-trim_end mark bs)

length-before_mark : (mark : ℕ) (bs : Bytes) → length (before_mark mark bs) ≤ length bs
unfolding before_mark
length-before_mark mark [] = omega arith
length-before_mark mark (b ∷ bs) = ground (arith, length-before_mark mark bs)

length-stream_key : (text : Bytes) → length (stream_key text) ≤ length text
unfolding stream_key trim_matches
length-stream_key text =
    let named = before_mark b'?' text in
    omega (
      arith,
      length-before_mark b'?' text,
      length-trim_start b'/' named,
      length-trim_end b'/' (trim_start b'/' named),
    )

connect_to-IsStep :
    (s : Session) (transaction : ℕ) (app : Option Bytes)
    → IsValid s
    → transaction < 2 ^ 64
    → Ensures (IsStep s) (connect_to s transaction app)
unfolding connect_to announced
connect_to-IsStep s transaction none v h = fails
connect_to-IsStep s transaction (some app) v h =
    Ensures->>= (connect_replies-IsReplies transaction h) (λ actions f. returns (
      record { usable = v.usable; settled = v.settled; counted = v.counted; owed = v.owed },
      f (announced s),
    ))

publish_to-IsStep :
    (s : Session) (text : Option Bytes)
    → IsValid s
    → OptAll (λ t. length t < 2 ^ 32) text
    → Ensures (IsStep s) (publish_to s text)
unfolding publish_to publish_key announced
publish_to-IsStep s none v h = fails
publish_to-IsStep s (some text) v h =
    Ensures-if (is_empty (stream_key text)) (λ e. fails)
      (λ e.
        Ensures->>=
          (publish_replies-IsReplies (stream_key text) (omega (arith, length-stream_key text)))
          (λ actions f. returns (
            record { usable = v.usable; settled = v.settled; counted = v.counted; owed = v.owed },
            f (announced s),
          )))

close-IsStep : (s : Session) → IsValid s → IsStep s (close s)
unfolding close announced
close-IsStep s v = (
  record { usable = v.usable; settled = v.settled; counted = v.counted; owed = v.owed },
  elim (Bool-cases (is_publishing s.state)) [
    | inl there ↦ rw there (ends nothing)
    | inr not_there ↦ rw not_there nothing
  ],
)

module _ (is_utf8 : Bytes → Bool) where
  run_command-IsStep :
      (s : Session) (name : Bytes) (transaction : ℕ) (vs : Values)
      → IsValid s
      → transaction < 2 ^ 64
      → FitsValues is_utf8 0 vs
      → Ensures (IsStep s) (run_command s name transaction vs)
  unfolding run_command connect publish
  run_command-IsStep s name transaction vs v h hs =
      Ensures-if (same_bytes name connect_name) (λ e. connect_to-IsStep s transaction _ v h)
        (λ e.
          Ensures-if (same_bytes name create_stream_name)
            (λ e.
              Ensures->>= (create_stream_replies-IsReplies transaction h)
                (λ actions f. returns (v, f (announced s))))
            (λ e.
              Ensures-if (same_bytes name publish_name)
                (λ e.
                  publish_to-IsStep s _ v
                    (text-fits is_utf8 (value_at vs 3) (value_at-OptAll is_utf8 vs 3 hs)))
                (λ e.
                  Ensures-if
                    (same_bytes name delete_stream_name
                      || same_bytes name close_stream_name
                      || same_bytes name fc_unpublish_name)
                    (λ e. returns (close-IsStep s v)) (λ e. returns (v, nothing)))))

  named_command-IsStep :
      (s : Session) (vs : Values) (name : Option Bytes)
      → IsValid s
      → FitsValues is_utf8 0 vs
      → Ensures (IsStep s) (named_command s vs name)
  unfolding named_command
  named_command-IsStep s vs none v hs = fails
  named_command-IsStep s vs (some name) v hs =
      run_command-IsStep s name _ vs v
        (number-fits is_utf8 (value_at vs 1) (value_at-OptAll is_utf8 vs 1 hs)) hs

  of_amf0-Ensures :
      (P : Values → Type 0) (m : Outcome Amf0Error Values) → Ensures P m → Ensures P (of_amf0 m)
  of_amf0-Ensures P m (returns h) = returns h
  of_amf0-Ensures P m fails = fails

  pub command-IsStep :
      (s : Session) (payload : Bytes)
      → IsValid s
      → All IsByte payload
      → Ensures (IsStep s) (command is_utf8 s payload)
  unfolding command
  command-IsStep s payload v clean =
      Ensures->>=
        (of_amf0-Ensures (FitsValues is_utf8 0) _ (read_all-FitsValues is_utf8 payload clean))
        (λ vs hs. named_command-IsStep s vs _ v hs)
