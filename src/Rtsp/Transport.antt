-- ===== src/Rtsp/Transport.antt =====
-- src/rtsp/message.rs: the `Transport` header.
pub mod RoundTrip
use relaybay.Base.{ℕ, ◌^◌, Bool, true, false, ltb, ◌||◌, if◌then◌else◌, Option, none, some, ◌>>=◌}
use relaybay.Base.{List, [], ◌∷◌, ◌++◌, map, Bytes}
use relaybay.Text.{codes, beq, starts_with, ends_with, split, split_once, trim, decimal, parse}

pub data Transport : Type 0 where
  -- Two channels of this connection: the packets' and the reports'.
  interleaved : ℕ → ℕ → Transport
  -- Two ports.
  udp : ℕ → ℕ → Transport

unfoldable pub pair_of : Option (Bytes × Bytes) → Option (ℕ × ℕ)
unfolding parse trim
pair_of none = none
pair_of (some (first, second)) = do
  a ← parse (2 ^ 16) (trim first)
  b ← parse (2 ^ 16) (trim second)
  some (a, b)

unfoldable pub pair : Bytes → Option (ℕ × ℕ)
unfolding pair_of split_once
pair value = pair_of (split_once (codes "-") value)

-- What the parts of a specification say.
pub record Said : Type 0 where
  pub ports : Option (ℕ × ℕ)
  pub channels : Option (ℕ × ℕ)
  pub multicast : Bool

unfoldable pub named_part : Bytes → Said → Option (Bytes × Bytes) → Said
unfolding pair beq
named_part part said none = record said {
  multicast = said.multicast || beq part (codes "multicast");
}
named_part part said (some (name, value)) =
    if beq name (codes "interleaved")
    then record said { channels = pair value }
    else if beq name (codes "client_port")
    then record said { ports = pair value }
    else record said { multicast = said.multicast || beq part (codes "multicast") }

unfoldable pub say : Said → List Bytes → Said
unfolding named_part split_once
say said [] = said
say said (part ∷ parts) = say (named_part part said (split_once (codes "=") part)) parts

unfoldable pub byte_channels : Option (ℕ × ℕ) → Option Transport
byte_channels none = none
byte_channels (some (rtp, rtcp)) =
    if ltb rtp 256 then (if ltb rtcp 256 then some (interleaved rtp rtcp) else none) else none

unfoldable pub ports_of : Option (ℕ × ℕ) → Option Transport
ports_of none = none
ports_of (some (rtp, rtcp)) = some (udp rtp rtcp)

unfoldable pub offer : Bool → Said → Option Transport
unfolding byte_channels ports_of
offer over_tcp said =
    if said.multicast
    then none
    else if over_tcp
    then byte_channels said.channels
    else ports_of said.ports

unfoldable pub parse_parts : List Bytes → Option Transport
unfolding offer say starts_with ends_with
parse_parts [] = none
parse_parts (protocol ∷ parts) =
    if starts_with (codes "RTP/AVP") protocol
    then offer (ends_with (codes "/TCP") protocol)
        (say (record { ports = none; channels = none; multicast = false }) parts)
    else none

unfoldable pub parse_one : Bytes → Option Transport
unfolding parse_parts split trim
parse_one spec = parse_parts (map trim (split (codes ";") spec))

unfoldable pub keep_some : Option Transport → List Transport → List Transport
keep_some none offers = offers
keep_some (some t) offers = t ∷ offers

unfoldable pub offers_of : List Bytes → List Transport
unfolding parse_one keep_some
offers_of [] = []
offers_of (spec ∷ specs) = keep_some (parse_one spec) (offers_of specs)

-- Every form that the header offers and this can express, in the client's order.
unfoldable pub offered : Bytes → List Transport
unfolding offers_of split
offered header = offers_of (split (codes ",") header)

unfoldable pub first_offer : List Transport → Option Transport
first_offer [] = none
first_offer (t ∷ offers) = some t

unfoldable pub parse_transport : Bytes → Option Transport
unfolding first_offer offered
parse_transport header = first_offer (offered header)

unfoldable pub dashed : ℕ → ℕ → Bytes
unfolding decimal
dashed a b = decimal a ++ (codes "-" ++ decimal b)

unfoldable pub server_part : Option (ℕ × ℕ) → Bytes
unfolding dashed
server_part none = []
server_part (some (rtp, rtcp)) = codes ";server_port=" ++ dashed rtp rtcp

unfoldable pub to_header : Transport → Option (ℕ × ℕ) → Bytes
unfolding dashed server_part
to_header (interleaved rtp rtcp) server =
    codes "RTP/AVP/TCP;unicast;interleaved=" ++ dashed rtp rtcp
to_header (udp rtp rtcp) server =
    codes "RTP/AVP;unicast;client_port=" ++ (dashed rtp rtcp ++ server_part server)
