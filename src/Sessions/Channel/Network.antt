-- ===== src/Sessions/Channel/Network.antt =====
-- Both channels of a session and the frames under way, under any schedule of sends and receives.
use the_grid.Prelude.{◌≡◌, refl, true, List, [], ◌∷◌, ◌++◌, length, map}
use the_grid.Text.{Text}
use the_grid.Crypto.{Primitives, Laws}
use the_grid.Sessions.Types.{SessionEvent}
use the_grid.Sessions.Frames.{EncryptedSessionFrame}
use the_grid.Sessions.Channel.{Channel, is_active}
use the_grid.Sessions.Channel.Delivery.{Line, Speaks, Listens, Flight-length, text_event}
use the_grid.Sessions.Channel.Direction.{
  Half, send, receive, InStep, send-InStep, send_frame, receive-InStep, receive_frame, InStep-ends,
}

-- Both directions. The creator sends on one line and receives on the other.
pub record Network : Type 0 where
  pub creator : Channel
  pub joiner : Channel
  pub to_joiner : List EncryptedSessionFrame
  pub to_creator : List EncryptedSessionFrame
  pub creator_sent : List SessionEvent
  pub joiner_sent : List SessionEvent
  pub creator_got : List SessionEvent
  pub joiner_got : List SessionEvent

abbrev pub outward : Network → Half
outward w = record {
  sender = w.creator;
  receiver = w.joiner;
  queue = w.to_joiner;
  sent = w.creator_sent;
  got = w.joiner_got;
}

abbrev pub inward : Network → Half
inward w = record {
  sender = w.joiner;
  receiver = w.creator;
  queue = w.to_creator;
  sent = w.joiner_sent;
  got = w.creator_got;
}

abbrev with_outward : Network → Half → Network
with_outward w h = record w {
  creator = h.sender;
  joiner = h.receiver;
  to_joiner = h.queue;
  creator_sent = h.sent;
  joiner_got = h.got;
}

abbrev with_inward : Network → Half → Network
with_inward w h = record w {
  joiner = h.sender;
  creator = h.receiver;
  to_creator = h.queue;
  joiner_sent = h.sent;
  creator_got = h.got;
}

pub data Act : Type 0 where
  creator_sends joiner_sends : Text → Act
  creator_receives joiner_receives : Act

unfoldable pub act : Primitives → Network → Act → Network
unfolding send receive
act c w (creator_sends v) = with_outward w (send c v (outward w))
act c w (joiner_sends v) = with_inward w (send c v (inward w))
act c w creator_receives = with_inward w (receive c (inward w))
act c w joiner_receives = with_outward w (receive c (outward w))

unfoldable pub run : Primitives → Network → List Act → Network
unfolding act
run c w [] = w
run c w (a ∷ as') = run c (act c w a) as'

-- The two channels of a session, each the one end of both lines.
pub record IsJoined (out into : Line) (a b : Channel) : Type 0 where
  pub creator_speaks : Speaks out a a.send_counter
  pub joiner_listens : Listens out b a.send_counter
  pub joiner_speaks : Speaks into b b.send_counter
  pub creator_listens : Listens into a b.send_counter

abbrev pub start : Channel → Channel → Network
start a b = record {
  creator = a;
  joiner = b;
  to_joiner = [];
  to_creator = [];
  creator_sent = [];
  joiner_sent = [];
  creator_got = [];
  joiner_got = [];
}

module _ (c : Primitives) (out into : Line) where
  record BothInStep (w : Network) : Type 0 where
    outgoing : InStep c out (outward w)
    incoming : InStep c into (inward w)

  starts : (a b : Channel) → IsJoined out into a b → BothInStep (start a b)
  starts a b j = record {
    outgoing = record {
      next_send = a.send_counter;
      next_receive = a.send_counter;
      pending = [];
      speaks = j.creator_speaks;
      listens = j.joiner_listens;
      flight = refl;
      logs = refl;
    };
    incoming = record {
      next_send = b.send_counter;
      next_receive = b.send_counter;
      pending = [];
      speaks = j.joiner_speaks;
      listens = j.creator_listens;
      flight = refl;
      logs = refl;
    };
  }

  module _ (laws : Laws c) (out16 : length out.session_id ≡ 16)
      (into16 : length into.session_id ≡ 16) where
    act-BothInStep : (w : Network) (a : Act) → BothInStep w → BothInStep (act c w a)
    unfolding act
    act-BothInStep w (creator_sends v) i =
        let (r, (k, s)) = send_frame c laws out out16 v (outward w) i.outgoing in
        record {
          outgoing = send-InStep c laws out out16 v (outward w) i.outgoing;
          incoming =
              InStep-ends c laws into into16 (inward w) _ _ w.joiner.receive_counter k r s
                i.incoming;
        }
    act-BothInStep w (joiner_sends v) i =
        let (r, (k, s)) = send_frame c laws into into16 v (inward w) i.incoming in
        record {
          outgoing =
              InStep-ends c laws out out16 (outward w) _ _ w.creator.receive_counter k r s
                i.outgoing;
          incoming = send-InStep c laws into into16 v (inward w) i.incoming;
        }
    act-BothInStep w creator_receives i =
        let (s, (k, r)) = receive_frame c laws into into16 (inward w) i.incoming in
        record {
          outgoing =
              InStep-ends c laws out out16 (outward w) _ _ k w.joiner.send_counter r s i.outgoing;
          incoming = receive-InStep c laws into into16 (inward w) i.incoming;
        }
    act-BothInStep w joiner_receives i =
        let (s, (k, r)) = receive_frame c laws out out16 (outward w) i.outgoing in
        record {
          outgoing = receive-InStep c laws out out16 (outward w) i.outgoing;
          incoming =
              InStep-ends c laws into into16 (inward w) _ _ k w.creator.send_counter r s i.incoming;
        }

    run-BothInStep : (w : Network) (as' : List Act) → BothInStep w → BothInStep (run c w as')
    unfolding run
    run-BothInStep w [] i = i
    run-BothInStep w (a ∷ as') i = run-BothInStep (act c w a) as' (act-BothInStep w a i)

-- Under any schedule of sends and receives on two joined channels, each side has got a prefix of
-- what the other has sent, the rest is under way, and both channels stay active.
pub delivery :
    (c : Primitives) (laws : Laws c) (out into : Line) (a b : Channel) (schedule : List Act)
    → length out.session_id ≡ 16
    → length into.session_id ≡ 16
    → IsJoined out into a b
    → let w = run c (start a b) schedule in
      ((pending : List Text) × (w.creator_sent ≡ w.joiner_got ++ map text_event pending)
        × (length pending ≡ length w.to_joiner))
      × ((pending : List Text) × (w.joiner_sent ≡ w.creator_got ++ map text_event pending)
          × (length pending ≡ length w.to_creator))
      × (is_active w.creator ≡ true)
      × (is_active w.joiner ≡ true)
delivery c laws out into a b schedule out16 into16 j =
    let i =
      run-BothInStep c out into laws out16 into16 (start a b) schedule (starts c out into a b j) in
    let w = run c (start a b) schedule in
    (
      (
        i.outgoing.pending,
        i.outgoing.logs,
        Flight-length c out i.outgoing.next_receive _ w.to_joiner i.outgoing.pending
            i.outgoing.flight,
      ),
      (
        i.incoming.pending,
        i.incoming.logs,
        Flight-length c into _ _ w.to_creator i.incoming.pending i.incoming.flight,
      ),
      i.outgoing.speaks.active,
      i.incoming.speaks.active,
    )
