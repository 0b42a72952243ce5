-- ===== src/Track.antt =====
-- src/track.rs: the tracks of a stream, numbered by where they stand.
use relaybay.Base.{ℕ, zero, suc, ◌+◌, ◌%◌, ◌^◌, ◌≤◌, ◌≡◌, refl, false, ltb, if◌then◌else◌, arith}
use relaybay.Base.{Option, some, List, [], ◌∷◌, length, is_empty, get_elem?, All, ge→ltb}
use Prim.Native.String.{String}
use relaybay.Base.Outcome.{Outcome, ok, err, ◌>>◌}
use relaybay.Codec.H264.Config
use relaybay.Codec.Aac

-- A `TrackId` is its index.
pub data Kind : Type 0 where
  video audio : Kind

pub data Codec : Type 0 where
  h264 : Config.Parameters → Codec
  aac : Aac.Parameters → Codec

unfoldable pub codec_kind : Codec → Kind
codec_kind (h264 parameters) = video
codec_kind (aac parameters) = audio

unfoldable pub clock_rate : Codec → ℕ
clock_rate (h264 parameters) = 90_000
clock_rate (aac parameters) = parameters.sample_rate

pub record Track : Type 0 where
  pub id : ℕ
  pub codec : Codec

pub data DescriptionError : Type 0 where
  no_tracks : DescriptionError
  too_many_tracks : ℕ → DescriptionError
  missing_parameter_set : ℕ → String → DescriptionError

pub record Description : Type 0 where
  pub tracks : List Track

abbrev pub limit : ℕ
limit = 65535

unfoldable pub check_codec : ℕ → Codec → Outcome DescriptionError (Unit {0})
check_codec index (aac parameters) = ok tt
check_codec index (h264 parameters) =
    if is_empty parameters.sps
    then err (missing_parameter_set index "SPS")
    else if is_empty parameters.pps
    then err (missing_parameter_set index "PPS")
    else ok tt

-- The loop over the codecs, from an index on.
unfoldable pub check_codecs : ℕ → List Codec → Outcome DescriptionError (Unit {0})
check_codecs index [] = ok tt
check_codecs index (c ∷ cs) = do check_codec index c; check_codecs (index + 1) cs

unfoldable pub number_tracks : ℕ → List Codec → List Track
number_tracks index [] = []
number_tracks index (c ∷ cs) =
    record { id = index % 2 ^ 16; codec = c } ∷ number_tracks (index + 1) cs

unfoldable pub new : List Codec → Outcome DescriptionError Description
new codecs =
    if is_empty codecs
    then err no_tracks
    else if ltb limit (length codecs)
    then err (too_many_tracks limit)
    else (do check_codecs 0 codecs; ok (record { tracks = number_tracks 0 codecs }))

unfoldable pub track : Description → ℕ → Option Track
track d id = get_elem? d.tracks id

-- A codec that a decoder can start from.
unfoldable pub IsComplete : Codec → Type 0
IsComplete (aac parameters) = Unit {0}
IsComplete (h264 parameters) = (is_empty parameters.sps ≡ false) × (is_empty parameters.pps ≡ false)

get_elem?-number_tracks :
    (index : ℕ) (codecs : List Codec) (i id : ℕ) (c : Codec)
    → index + length codecs ≤ 2 ^ 16
    → index + i ≡ id
    → get_elem? codecs i ≡ some c
    → get_elem? (number_tracks index codecs) i ≡ some (record { id = id; codec = c })
unfolding number_tracks
get_elem?-number_tracks index [] i id c h place e = cc
get_elem?-number_tracks index (d ∷ ds) zero id c h place e = ground (arith, e)
get_elem?-number_tracks index (d ∷ ds) (suc i) id c h place e =
    get_elem?-number_tracks (index + 1) ds i id c (omega arith) (omega arith) e

check_codecs-ok :
    (index : ℕ) (codecs : List Codec) → All IsComplete codecs → check_codecs index codecs ≡ ok tt
unfolding check_codecs check_codec IsComplete
check_codecs-ok index [] hs = refl
check_codecs-ok index (h264 parameters ∷ cs) ((some_sps, some_pps), hs) =
    rw (some_sps, some_pps) (check_codecs-ok (index + 1) cs hs)
check_codecs-ok index (aac parameters ∷ cs) (h, hs) = check_codecs-ok (index + 1) cs hs

-- At most 65535 complete codecs, and one at least, make a description, in which each codec is the
-- track whose id is its place.
pub track-new :
    (codecs : List Codec) (i : ℕ) (c : Codec)
    → All IsComplete codecs
    → length codecs ≤ limit
    → get_elem? codecs i ≡ some c
    → (d : Description) × (new codecs ≡ ok d) × (track d i ≡ some (record { id = i; codec = c }))
unfolding new track
track-new [] i c hs h e = cc
track-new (d ∷ ds) i c hs h e = (
  record { tracks = number_tracks 0 (d ∷ ds) },
  rw (ge→ltb limit (length (d ∷ ds)) h, check_codecs-ok 0 (d ∷ ds) hs) refl,
  get_elem?-number_tracks 0 (d ∷ ds) i i c (omega arith) (omega arith) e,
)
