-- ===== src/Rtsp/Session/Names.antt =====
-- src/rtsp/session.rs: session ids, paths and the tracks that paths name.
use relaybay.Base.{ℕ, ◌+◌, ◌*◌, ◌/◌, ◌%◌, ◌^◌, Bool, ◌||◌, if◌then◌else◌}
use relaybay.Base.{Option, none, some, [], Bytes, to_be}
use Prim.Native.Nat.{bit_xor}
use relaybay.Text.{codes, same_word, split_once, rsplit_once, trim_front, trim_back, parse}
use relaybay.Rtsp.Base64.{hex}

unfoldable pub scramble : ℕ → ℕ
scramble value =
    let a = (value + 0x9e3779b97f4a7c15) % 2 ^ 64 in
    let b = bit_xor a (a / 2 ^ 30) * 0xbf58476d1ce4e5b9 % 2 ^ 64 in
    let c = bit_xor b (b / 2 ^ 27) * 0x94d049bb133111eb % 2 ^ 64 in bit_xor c (c / 2 ^ 31)

-- `{:08x}` of the low half: two digits for each of its four bytes.
unfoldable pub id_of : ℕ → Bytes
unfolding scramble hex to_be
id_of counter = hex (to_be 4 (scramble counter % 2 ^ 32))

unfoldable behind : Option (Bytes × Bytes) → Bytes
behind none = []
behind (some (front, back)) = back

unfoldable without_authority : Bytes → Option (Bytes × Bytes) → Bytes
unfolding behind split_once
without_authority uri none = uri
without_authority uri (some (scheme, rest)) = behind (split_once (codes "/") rest)

unfoldable head_part : Bytes → Option (Bytes × Bytes) → Bytes
head_part path none = path
head_part path (some (front, query)) = front

unfoldable pub path_of : Bytes → Bytes
unfolding without_authority head_part split_once trim_front trim_back
path_of uri =
    let path = without_authority uri (split_once (codes "://") uri) in
    trim_back b'/' (trim_front b'/' (head_part path (split_once (codes "?") path)))

unfoldable names_track : Bytes → Bool
unfolding same_word
names_track name =
    same_word name (codes "trackid")
    || same_word name (codes "streamid")
    || same_word name (codes "track")

unfoldable track_index : Bytes → Bytes → Bytes → Option ℕ → Bytes × Option ℕ
unfolding names_track
track_index path stream name none = (path, none)
track_index path stream name (some index) =
    if names_track name then (stream, some index) else (path, none)

unfoldable track_named : Bytes → Bytes → Option (Bytes × Bytes) → Bytes × Option ℕ
unfolding track_index parse
track_named path stream none = (path, none)
track_named path stream (some (name, index)) = track_index path stream name (parse (2 ^ 64) index)

unfoldable last_segment : Bytes → Option (Bytes × Bytes) → Bytes × Option ℕ
unfolding track_named split_once
last_segment path none = (path, none)
last_segment path (some (stream, last)) = track_named path stream (split_once (codes "=") last)

unfoldable pub split_track : Bytes → Bytes × Option ℕ
unfolding last_segment rsplit_once
split_track path = last_segment path (rsplit_once b'/' path)
