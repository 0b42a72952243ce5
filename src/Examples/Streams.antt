-- ===== src/Examples/Streams.antt =====
-- Runs of the cache and the registry of src/path.rs, over a channel that keeps all it is sent.
use relaybay.Base.{ℕ, zero, suc, ◌+◌, ◌^◌, ◌<◌, ◌≤◌, ◌≡◌, refl, none, List, [], ◌∷◌}
use relaybay.Base.{
  ◌++◌, arith, true, false, if◌then◌else◌, leb, length, drop, drop_all, length-append, get, nat_eq,
}
use relaybay.Base.{string_eq}
use relaybay.Codec.H264
use relaybay.Codec.H264.{Nal, idr, slice}
use relaybay.Unit.{
  MediaUnit, VideoUnit, AudioUnit, VideoPayload, AudioPayload, video, audio, opens_a_stream,
  unit_length,
}
use relaybay.Path.Cache
use relaybay.Path.Cache.{Cache, cache_limit}
use relaybay.Path.Cache.Group.{push_all, push_all_group, total}
use relaybay.Path.Cache.Window.{IsLongestEnd, push_all-IsLongestEnd}
use relaybay.Path.Registry
use relaybay.Path.Registry.{
  Broadcast, Publisher, Source, Registry, publish, push, read, source_at, owns, clear, fresh_source,
  take_token, open_path, set_source,
}
use relaybay.Path.Registry.Laws
use relaybay.Path.Registry.Publish.{IsPublisher, Published, publish-Published}
use relaybay.Path.Registry.Live.{Holds, Joins, push_run, publish-Holds, publish-push-Joins}
use relaybay.Path.Registry.Leaving.{publish_displaces, Dropped, drop-Dropped}
use relaybay.Path.Registry.Race.{overtaken, read-overtaken}

-- A feed is how many units it holds and all that it was sent, a receiver is where it began.
drop-append_le :
    (n : ℕ) (us vs : List MediaUnit) → n ≤ length us → drop n (us ++ vs) ≡ drop n us ++ vs
drop-append_le zero us vs h = refl
drop-append_le (suc n) [] vs h = absurd (omega arith)
drop-append_le (suc n) (u ∷ us) vs h = drop-append_le n us vs (omega arith)

abbrev kept : Broadcast
kept = record {
  Feed = ℕ × List MediaUnit;
  Receiver = ℕ;
  channel = λ n. (n, []);
  send = λ f u. (f.0, f.1 ++ u ∷ []);
  subscribe = λ f. length f.1;
  capacity = λ f. f.0;
  waiting = λ r f. drop r f.1;
  Attached = λ r f. r ≤ length f.1;
  subscribe-Attached = λ f. omega arith;
  send-Attached = λ r f u h. omega (arith, length-append f.1 (u ∷ []));
  capacity-channel = λ n. omega arith;
  capacity-send = λ f u. refl;
  waiting-subscribe = λ f. drop_all (length f.1) f.1 (omega arith);
  waiting-send = λ r f u h room. drop-append_le r f.1 (u ∷ []) h;
}

abbrev picture : Nal → MediaUnit
picture nal = video (record {
  track = 0;
  payload = VideoPayload.h264 (nal ∷ []);
  pts = 0;
  dts = 0;
  keyframe = H264.is_keyframe (nal ∷ []);
})

abbrev opening : MediaUnit
opening = picture (record { kind = idr; contents = 0x65 ∷ 1 ∷ [] })

abbrev following : MediaUnit
following = picture (record { kind = slice; contents = 0x41 ∷ 2 ∷ [] })

abbrev sound : MediaUnit
sound = audio (record { track = 1; payload = AudioPayload.aac (7 ∷ 9 ∷ []); pts = 0 })

opening_opens : opens_a_stream opening ≡ true
unfolding opens_a_stream H264.is_keyframe H264.is_idr
opening_opens = refl

following_follows : opens_a_stream following ≡ false
unfolding opens_a_stream H264.is_keyframe H264.is_idr
following_follows = refl

sound_follows : opens_a_stream sound ≡ false
unfolding opens_a_stream
sound_follows = refl

two_units : total (opening ∷ following ∷ []) ≤ cache_limit
unfolding total unit_length relaybay.Unit.video_payload_length relaybay.Unit.nalus_length
two_units = omega arith

push_all_group_example :
    (push_all Cache.new ((following ∷ []) ++ opening ∷ following ∷ [])).units
    ≡ (if leb (total (opening ∷ following ∷ [])) cache_limit then opening ∷ following ∷ [] else [])
push_all_group_example =
    push_all_group (following ∷ []) (following ∷ []) opening opening_opens (following_follows, tt)

push_all-IsLongestEnd_example :
    IsLongestEnd (sound ∷ sound ∷ []) (push_all Cache.new (sound ∷ sound ∷ [])).units
push_all-IsLongestEnd_example =
    push_all-IsLongestEnd (sound ∷ sound ∷ []) (sound_follows, (sound_follows, tt))

-- The descriptions are numbers here.
abbrev empty : Registry kept ℕ
empty = Registry.new

new-IsValid : Registry.Laws.IsValid empty
unfolding Registry.new source_at get
new-IsValid = record {
  given = λ n a e. cc;
  apart = λ n m a e e'. cc;
  tokens = λ a s e. cc;
  placed = λ a s e. cc;
  unwrapped = omega arith;
}

room : empty.published + 1 < 2 ^ 64
unfolding Registry.new
room = omega arith

publish-Published_example : Published empty "live/cam" 5 (publish empty "live/cam" 5)
publish-Published_example = publish-Published empty "live/cam" 5 new-IsValid room

abbrev camera : Publisher
camera = (publish empty "live/cam" 5).0

abbrev on_air : Registry kept ℕ
on_air = (publish empty "live/cam" 5).1

publish-push-Joins_example :
    Joins
      (push_run on_air camera ((sound ∷ []) ++ opening ∷ following ∷ []))
      (push_run
        (push_run on_air camera ((sound ∷ []) ++ opening ∷ following ∷ []))
        camera
        (following ∷ []))
      "live/cam"
      5
      ((opening ∷ following ∷ []) ++ following ∷ [])
publish-push-Joins_example =
    publish-push-Joins empty "live/cam" 5 (sound ∷ []) (following ∷ []) (following ∷ []) opening
      new-IsValid room opening_opens (following_follows, tt) two_units (omega arith)

on_air-IsValid : Registry.Laws.IsValid on_air
on_air-IsValid = (publish-Published empty "live/cam" 5 new-IsValid room).valid

camera-IsPublisher : IsPublisher on_air camera
camera-IsPublisher = (publish-Published empty "live/cam" 5 new-IsValid room).publisher

camera-Holds : Holds on_air camera (fresh_source 0 5)
unfolding Registry.new
camera-Holds = publish-Holds empty "live/cam" 5 new-IsValid room

room_on_air : on_air.published + 1 < 2 ^ 64
unfolding publish take_token open_path set_source Registry.new get
room_on_air = omega arith

publish_displaces_example :
    (push (publish on_air camera.name 6).1 camera opening ≡ (publish on_air camera.name 6).1)
    × (Registry.drop (publish on_air camera.name 6).1 camera ≡ (publish on_air camera.name 6).1)
publish_displaces_example =
    publish_displaces on_air camera 6 opening on_air-IsValid camera-IsPublisher room_on_air

drop-Dropped_example : Dropped on_air camera (Registry.drop on_air camera)
drop-Dropped_example = drop-Dropped on_air camera (fresh_source 0 5) on_air-IsValid camera-Holds

read-overtaken_example :
    (read (overtaken on_air camera 6) camera.name ≡ none)
    × (owns (publish (clear on_air camera) camera.name 6).0 (
          source_at
            (overtaken on_air camera 6)
            (publish (clear on_air camera) camera.name 6).0.path)
        ≡ true)
read-overtaken_example =
    read-overtaken on_air camera (fresh_source 0 5) 6 on_air-IsValid camera-Holds room_on_air
