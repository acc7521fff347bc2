-- ===== src/Sessions/Channel/Direction.antt =====
-- One direction of a session: a sender, a receiver and the frames under way between them.
use the_grid.Prelude.{ℕ, ◌+◌, ◌≡◌, refl, ap, List, [], ◌∷◌, ◌++◌, length, inl, inr, map}
use mathlib.Core.List.{append_assoc, map-append}
use the_grid.Prelude.Result.{Result, ok, err}
use the_grid.Text.{Text}
use the_grid.Crypto.{Primitives, Laws}
use the_grid.Sessions.Types.{SessionEvent}
use the_grid.Sessions.Frames.{EncryptedSessionFrame}
use the_grid.Sessions.Channel.{Channel, encrypt_text, decrypt_frame, is_active}
use the_grid.Sessions.Channel.Delivery.{
  Line, Speaks, Listens, Flight, Flight-send, text_event, encrypt_text-Opens,
}

-- One direction: the sender, the receiver, the frames under way, and the logs of both ends.
pub record Half : Type 0 where
  pub sender : Channel
  pub receiver : Channel
  pub queue : List EncryptedSessionFrame
  pub sent : List SessionEvent
  pub got : List SessionEvent

-- A text that raises is not sent.
after_send : Half → Text → Channel × Result EncryptedSessionFrame → Half
after_send h value (sender', err e) = record h { sender = sender' }
after_send h value (sender', ok f) = record h {
  sender = sender';
  queue = h.queue ++ f ∷ [];
  sent = h.sent ++ text_event value ∷ [];
}

unfoldable pub send : Primitives → Text → Half → Half
unfolding after_send
send c value h = after_send h value (encrypt_text c h.sender value)

after_receive : Half → List EncryptedSessionFrame → Channel × Result SessionEvent → Half
after_receive h fs (receiver', err e) = record h { receiver = receiver'; queue = fs }
after_receive h fs (receiver', ok event) = record h {
  receiver = receiver';
  queue = fs;
  got = h.got ++ event ∷ [];
}

receive_from : Primitives → Half → List EncryptedSessionFrame → Half
unfolding after_receive
receive_from c h [] = h
receive_from c h (f ∷ fs) = after_receive h fs (decrypt_frame c h.receiver f)

-- The receiver takes the first frame under way, if there is one.
unfoldable pub receive : Primitives → Half → Half
unfolding receive_from
receive c h = receive_from c h h.queue

-- What was sent has arrived or is under way, in order.
pub record InStep (c : Primitives) (l : Line) (h : Half) : Type 0 where
  pub next_send : ℕ
  pub next_receive : ℕ
  pub pending : List Text
  pub speaks : Speaks l h.sender next_send
  pub listens : Listens l h.receiver next_receive
  pub flight : Flight c l next_receive h.queue pending next_send
  pub logs : h.sent ≡ h.got ++ map text_event pending

Speaks-next :
    (l : Line) (a : Channel) (n : ℕ)
    → Speaks l a n
    → Speaks l (record a { send_counter = a.send_counter + 1 }) (n + 1)
unfolding is_active
Speaks-next l a n s = record {
  active = s.active;
  session = s.session;
  direction = s.direction;
  key = s.key;
  counter = ap (λ k. k + 1) s.counter;
}

Listens-next :
    (l : Line) (b : Channel) (n : ℕ)
    → Listens l b n
    → Listens l (record b { receive_counter = n + 1 }) (n + 1)
unfolding is_active
Listens-next l b n s = record {
  active = s.active;
  session = s.session;
  direction = s.direction;
  key = s.key;
  counter = refl;
}

module _ (c : Primitives) (laws : Laws c) (l : Line) (sixteen : length l.session_id ≡ 16) where
  pub send-InStep : (value : Text) (h : Half) → InStep c l h → InStep c l (send c value h)
  unfolding send
  send-InStep value h i =
      elim (encrypt_text-Opens c laws l h.sender i.next_send value sixteen i.speaks) [
        | inl (e, p) ↦ rw p i
        | inr (f, p, o) ↦ rw p (record {
          next_send = i.next_send + 1;
          next_receive = i.next_receive;
          pending = i.pending ++ value ∷ [];
          speaks = Speaks-next l h.sender i.next_send i.speaks;
          listens = i.listens;
          flight = Flight-send c l i.next_receive i.next_send h.queue i.pending f value i.flight o;
          logs = rw (i.logs, map-append, append_assoc);
        })
      ]

  -- A send touches the sender's send counter alone.
  pub send_frame :
      (value : Text) (h : Half)
      → InStep c l h
      → ((send c value h).receiver ≡ h.receiver)
        × ((k : ℕ) × ((send c value h).sender ≡ record h.sender { send_counter = k }))
  unfolding send
  send_frame value h i =
      elim (encrypt_text-Opens c laws l h.sender i.next_send value sixteen i.speaks) [
        | inl (e, p) ↦ rw p (refl, (h.sender.send_counter, refl))
        | inr (f, p, o) ↦ rw p (refl, (h.sender.send_counter + 1, refl))
      ]

  receive_from-InStep :
      (h : Half) (fs : List EncryptedSessionFrame) (vs : List Text) (n m : ℕ)
      → h.queue ≡ fs
      → Speaks l h.sender m
      → Listens l h.receiver n
      → Flight c l n fs vs m
      → h.sent ≡ h.got ++ map text_event vs
      → InStep c l (receive_from c h fs)
  unfolding receive_from
  receive_from-InStep h [] vs n m q s r f e = record {
    next_send = m;
    next_receive = n;
    pending = vs;
    speaks = s;
    listens = r;
    flight = rw q f;
    logs = e;
  }
  receive_from-InStep h (f ∷ fs) [] n m q s r o e = absurd o
  receive_from-InStep h (f ∷ fs) (v ∷ vs) n m q s r o e = rw (o.0 h.receiver r) (record {
    next_send = m;
    next_receive = n + 1;
    pending = vs;
    speaks = s;
    listens = Listens-next l h.receiver n r;
    flight = o.1;
    logs = rw append_assoc e;
  })

  pub receive-InStep : (h : Half) → InStep c l h → InStep c l (receive c h)
  unfolding receive
  receive-InStep h i =
      receive_from-InStep h h.queue i.pending i.next_receive i.next_send refl i.speaks i.listens
        i.flight i.logs

  -- A receive touches the receiver's receive counter alone.
  pub receive_frame :
      (h : Half)
      → InStep c l h
      → ((receive c h).sender ≡ h.sender)
        × ((k : ℕ) × ((receive c h).receiver ≡ record h.receiver { receive_counter = k }))
  unfolding receive
  receive_frame h i = go h.queue i.pending i.flight
    where
      go :
          (fs : List EncryptedSessionFrame) (vs : List Text)
          → Flight c l i.next_receive fs vs i.next_send
          → ((receive_from c h fs).sender ≡ h.sender)
            × ((k : ℕ) × ((receive_from c h fs).receiver
                  ≡ record h.receiver { receive_counter = k }))
      go [] vs f = (refl, (h.receiver.receive_counter, refl))
      go (f ∷ fs) [] o = absurd o
      go (f ∷ fs) (v ∷ vs) o = rw (o.0 h.receiver i.listens) (refl, (i.next_receive + 1, refl))

  -- What the other direction does to the two channels does not matter to this one.
  pub InStep-ends :
      (h : Half) (s r : Channel) (j k : ℕ)
      → s ≡ record h.sender { receive_counter = j }
      → r ≡ record h.receiver { send_counter = k }
      → InStep c l h
      → InStep c l (record h { sender = s; receiver = r })
  unfolding is_active
  InStep-ends h s r j k e f i =
      rw (e, f)
        (record {
          next_send = i.next_send;
          next_receive = i.next_receive;
          pending = i.pending;
          speaks = record {
            active = i.speaks.active;
            session = i.speaks.session;
            direction = i.speaks.direction;
            key = i.speaks.key;
            counter = i.speaks.counter;
          };
          listens = record {
            active = i.listens.active;
            session = i.listens.session;
            direction = i.listens.direction;
            key = i.listens.key;
            counter = i.listens.counter;
          };
          flight = i.flight;
          logs = i.logs;
        })
