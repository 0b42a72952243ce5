-- ===== src/Codec/H264/Config.antt =====
-- src/codec/h264.rs: the parameter sets of a stream, and the record that carries them.
use relaybay.Base.{ℕ, zero, suc, ◌+◌, ◌-◌, ◌%◌, eqb, ltb, if◌then◌else◌, Option, none, some}
use relaybay.Base.{List, [], ◌∷◌, ◌++◌, Bytes, length, take, drop, slice, from_be, is_empty}
use Prim.Native.Nat.{bit_or}
use Prim.Native.String.{String}
use relaybay.Base.Outcome.{Outcome, ok, err, panic, ◌>>=◌, ◌>>◌}
use relaybay.Codec.H264
use relaybay.Codec.H264.{Nal, H264Error, put_length_prefixed}

-- The errors of the framing, and those that only a record has.
pub data ConfigError : Type 0 where
  framing : H264Error → ConfigError
  unsupported_config_version : ℕ → ConfigError
  missing_parameter_set : String → ConfigError

pub record Parameters : Type 0 where
  pub sps : List Nal
  pub pps : List Nal

pub record AvcConfig : Type 0 where
  pub parameters : Parameters
  pub nal_length_size : ℕ

-- `rest` is `data[pos..]`.
pub record Reader : Type 0 where
  pub rest : Bytes
  pub pos : ℕ

unfoldable pub advance : ℕ → Reader → Reader
advance count r = record { rest = drop count r.rest; pos = r.pos + count }

unfoldable pub need : ℕ → Reader → Outcome ConfigError (Unit {0})
need count r =
    if ltb (length r.rest) count
    then err (framing (H264.truncated r.pos (count - length r.rest)))
    else ok tt

-- `data[pos..pos + count]`, byte by byte or as a slice, which panics behind the end.
unfoldable pub index_range : ℕ → Reader → Outcome ConfigError Bytes
index_range count r = if ltb (length r.rest) count then panic else ok (take count r.rest)

-- `u8` and `u16`.
unfoldable pub number_of : ℕ → Reader → Outcome ConfigError (ℕ × Reader)
number_of width r = do need width r; bs ← index_range width r; ok (from_be bs, advance width r)

unfoldable pub skip : ℕ → Reader → Outcome ConfigError Reader
skip count r = do need count r; ok (advance count r)

unfoldable pub keep_set : ℕ → Reader → Option Nal → Outcome ConfigError (Nal × Reader)
keep_set count r none = err (framing (H264.empty_nal_unit r.pos))
keep_set count r (some set) = ok (set, advance count r)

-- One round of the loop of `parameter_sets`, behind the length.
unfoldable pub read_set : ℕ → Reader → Outcome ConfigError (Nal × Reader)
read_set count r =
    if eqb count 0
    then err (framing (H264.empty_nal_unit r.pos))
    else (do need count r; bs ← index_range count r; keep_set count r (H264.new bs))

unfoldable pub read_sets : ℕ → Reader → Outcome ConfigError (List Nal × Reader)
read_sets zero r = ok ([], r)
read_sets (suc left) r = do
  (count, r₁) ← number_of 2 r
  (set, r₂) ← read_set count r₁
  (sets, r₃) ← read_sets left r₂
  ok (set ∷ sets, r₃)

-- `count & mask`, for a mask of ones, is a remainder.
unfoldable pub parameter_sets : ℕ → Reader → Outcome ConfigError (List Nal × Reader)
parameter_sets bound r = do (count, r₁) ← number_of 1 r; read_sets (count % bound) r₁

unfoldable pub check_sets : ℕ → List Nal → List Nal → Outcome ConfigError AvcConfig
check_sets width sps pps =
    if is_empty sps
    then err (missing_parameter_set "SPS")
    else if is_empty pps
    then err (missing_parameter_set "PPS")
    else ok (record { parameters = record { sps = sps; pps = pps }; nal_length_size = width })

unfoldable pub parse_fields : Reader → Outcome ConfigError AvcConfig
parse_fields r = do
  r₁ ← skip 3 r
  (width, r₂) ← number_of 1 r₁
  (sps, r₃) ← parameter_sets 32 r₂
  (pps, r₄) ← parameter_sets 256 r₃
  check_sets (width % 4 + 1) sps pps

unfoldable pub parse : Bytes → Outcome ConfigError AvcConfig
parse bs = do
  (version, r) ← number_of 1 (record { rest = bs; pos = 0 })
  if eqb version 1 then parse_fields r else err (unsupported_config_version version)

unfoldable pub profile_level : Parameters → Outcome ConfigError Bytes
profile_level parameters = elim parameters.sps [
  | [] ↦ err (missing_parameter_set "SPS")
  | set ∷ sets ↦
      if ltb (length set.contents) 4
      then err (framing (H264.truncated 1 (4 - length set.contents)))
      else ok (slice 1 4 set.contents)
]

abbrev pub of_framing : H264.Outcome Bytes → Outcome ConfigError Bytes
of_framing H264.spent = panic
of_framing (H264.err why) = err (framing why)
of_framing (H264.ok bs) = ok bs

unfoldable pub put_sets : List Nal → Outcome ConfigError Bytes
put_sets [] = ok []
put_sets (set ∷ sets) = do
  first ← of_framing (put_length_prefixed set.contents 2)
  others ← put_sets sets
  ok (first ++ others)

-- The width less one is a checked subtraction on a `u8`.
unfoldable pub put_width : ℕ → Outcome ConfigError ℕ
put_width width = if eqb (width % 256) 0 then panic else ok (bit_or 0xfc (width % 256 - 1))

unfoldable pub to_bytes : AvcConfig → Outcome ConfigError Bytes
to_bytes config = do
  level ← profile_level config.parameters
  width ← put_width config.nal_length_size
  sps ← put_sets config.parameters.sps
  pps ← put_sets config.parameters.pps
  ok (
      1
      ∷ (level
          ++ width
            ∷ bit_or 0xe0 (length config.parameters.sps % 32)
            ∷ (sps ++ length config.parameters.pps % 256 ∷ pps)))
