-- ===== src/Sessions/Conversation.antt =====
-- A whole session: the handshake, the exchange of identities, and texts under any schedule.
use the_grid.Prelude.{◌+◌, ◌≡◌, refl, ap, ◌∙◌, true, some, List, ◌++◌, length, map}
use the_grid.Prelude.Result.{ok}
use the_grid.Bytes.{Bytes}
use the_grid.Text.{Text}
use the_grid.Crypto.{Primitives, Laws}
use the_grid.Access.Display.{normalise_display_id}
use the_grid.Sessions.Channel.{Channel, is_active}
use the_grid.Sessions.Channel.Link.{IsLinked}
use the_grid.Sessions.Channel.Delivery.{Line, text_event}
use the_grid.Sessions.Channel.Network.{Act, IsJoined, start, run, delivery}
use the_grid.Sessions.Channel.Introduction.{Introduced, announced, introduced, introduction}
use the_grid.Sessions.Handshake.Total.{Setting, IsSetting}
use the_grid.Sessions.Handshake.Agreement.{Agreed, handshake_agreement}

abbrev line_of : Channel → Line
line_of a = record { session_id = a.session_id; direction = a.send_direction; key = a.send_key }

-- Two linked channels that have introduced themselves are joined.
introduced-IsJoined :
    (c : Primitives) (a b : Channel) (creator_value joiner_value creator_id joiner_id : Text)
    → IsLinked a b
    → IsLinked b a
    → Introduced c a b creator_value joiner_value creator_id joiner_id
    → IsJoined
        (line_of a)
        (line_of b)
        (introduced (announced a creator_id) joiner_id)
        (introduced (announced b joiner_id) creator_id)
introduced-IsJoined c a b creator_value joiner_value creator_id joiner_id ab ba i = record {
  creator_speaks = record {
    active = i.creator_is_active;
    session = refl;
    direction = refl;
    key = refl;
    counter = refl;
  };
  joiner_listens = record {
    active = i.joiner_is_active;
    session = ab.session;
    direction = ab.direction;
    key = ab.key;
    counter = ap (λ n. n + 1) ab.counters;
  };
  joiner_speaks = record {
    active = i.joiner_is_active;
    session = refl;
    direction = refl;
    key = refl;
    counter = refl;
  };
  creator_listens = record {
    active = i.creator_is_active;
    session = ba.session;
    direction = ba.direction;
    key = ba.key;
    counter = ap (λ n. n + 1) ba.counters;
  };
}

-- When the X25519 exchange has a result, two people with the same phrase material and two valid
-- display ids get from the handshake to active channels, and then, whatever the schedule of sends
-- and receives, each gets a prefix of the other's texts, in order and unchanged, the rest being
-- under way, while both channels stay active.
pub conversation :
    (c : Primitives) (laws : Laws c) (s : Setting) (shared : Bytes)
    (creator_value joiner_value creator_id joiner_id : Text) (schedule : List Act)
    → IsSetting s
    → c.exchange s.creator_key (c.public_bytes s.joiner_key) ≡ some shared
    → normalise_display_id creator_value ≡ ok creator_id
    → normalise_display_id joiner_value ≡ ok joiner_id
    → (g : Agreed c s) × Introduced c g.creator_channel g.joiner_channel creator_value joiner_value
        creator_id joiner_id
      × (let w =
            run c
              (start
                (introduced (announced g.creator_channel creator_id) joiner_id)
                (introduced (announced g.joiner_channel joiner_id) creator_id))
              schedule in
          ((pending : List Text) × (w.creator_sent ≡ w.joiner_got ++ map text_event pending)
            × (length pending ≡ length w.to_joiner))
          × ((pending : List Text) × (w.joiner_sent ≡ w.creator_got ++ map text_event pending)
              × (length pending ≡ length w.to_creator))
          × (is_active w.creator ≡ true)
          × (is_active w.joiner ≡ true))
conversation c laws s shared creator_value joiner_value creator_id joiner_id schedule i x ha hb =
    let g = handshake_agreement c laws s shared i x in
    let a = g.creator_channel in
    let b = g.joiner_channel in
    let known =
      introduction c laws a b creator_value joiner_value creator_id joiner_id g.creator_is_fresh
        g.joiner_is_fresh g.outward g.inward g.length-session_id ha hb in
    (
      g,
      known,
      delivery c laws (line_of a) (line_of b) _ _ schedule g.length-session_id
          (ap length g.outward.session ∙ g.length-session_id)
          (introduced-IsJoined c a b creator_value joiner_value creator_id joiner_id g.outward
            g.inward known),
    )
