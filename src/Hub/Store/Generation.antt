-- ===== src/Hub/Store/Generation.antt =====
-- `bind_access_generation`: what an access generation leaves of the one before it.
use the_grid.Prelude.{
  ◌≡◌, ◌≢◌, refl, sym, ap, ◌∙◌, Bool, true, false, Option, none, some, List, [], ◌∷◌, length, ℕ_eq,
  list_eq, arith, beq_refl, list_beq_iff,
}
use the_grid.Prelude.Result.{Result, ok, err}
use the_grid.Bytes.{Bytes, require_bytes, require_bytes-eq-ok}
use the_grid.Crypto.{require_bytes_of_length}
use the_grid.Hub.Store.{
  BoardStore, bind_checked, bind_access_generation, generation_changed, rebind, is_empty,
}

-- No message, no seen id and no cooldown.
pub record IsCleared (s : BoardStore) : Type 0 where
  pub no_messages : s.messages ≡ []
  pub no_seen_ids : s.seen_ids ≡ []
  pub no_cooldowns : s.cooldowns ≡ []

bind-ok :
    (s : BoardStore) (g : Bytes)
    → length g ≡ 16
    → bind_access_generation s g ≡ (
      rebind s g (generation_changed s g s.access_generation),
      ok (generation_changed s g s.access_generation),
    )
unfolding bind_access_generation
bind-ok s g h = ground (arith, require_bytes_of_length g 16 h)

is_empty-eq {ℓ} : {A : Type ℓ} (xs : List A) → is_empty xs ≡ true → xs ≡ []
unfolding is_empty
is_empty-eq [] h = refl
is_empty-eq (x ∷ xs) h = absurd (ground arith)

-- A store that is not bound to `g` has no row when it is bound without a change.
unbound-IsCleared :
    (s : BoardStore) (g : Bytes) (bound : Option Bytes)
    → bound ≢ some g
    → generation_changed s g bound ≡ false
    → IsCleared s
unfolding generation_changed
unbound-IsCleared s g none d h = record {
  no_messages = is_empty-eq s.messages (ground (arith, h));
  no_seen_ids = is_empty-eq s.seen_ids (ground (arith, h));
  no_cooldowns = is_empty-eq s.cooldowns (ground (arith, h));
}
unbound-IsCleared s g (some b) d h = absurd (d (ap some ((list_beq_iff b g).0 (ground (arith, h)))))

rebound-IsCleared :
    (s : BoardStore) (g : Bytes) (changed : Bool)
    → (changed ≡ false → IsCleared s)
    → IsCleared (rebind s g changed)
unfolding rebind
rebound-IsCleared s g true k = record {
  no_messages = refl;
  no_seen_ids = refl;
  no_cooldowns = refl;
}
rebound-IsCleared s g false k =
    let e = k refl in
    record {
      no_messages = e.no_messages;
      no_seen_ids = e.no_seen_ids;
      no_cooldowns = e.no_cooldowns;
    }

rebind-generation :
    (s : BoardStore) (g : Bytes) (changed : Bool) → (rebind s g changed).access_generation ≡ some g
unfolding rebind
rebind-generation s g true = refl
rebind-generation s g false = refl

-- Binding a store to a generation of sixteen bytes that it was not bound to leaves no message, no
-- seen id and no cooldown, and the store is bound to that generation.
pub bind_new_generation :
    (s : BoardStore) (g : Bytes)
    → length g ≡ 16
    → s.access_generation ≢ some g
    → IsCleared (bind_access_generation s g).0
      × ((bind_access_generation s g).0.access_generation ≡ some g)
bind_new_generation s g h d = rw (bind-ok s g h) (
  rebound-IsCleared s g (generation_changed s g s.access_generation)
      (unbound-IsCleared s g s.access_generation d),
  rebind-generation s g (generation_changed s g s.access_generation),
)

same_generation :
    (s : BoardStore) (g : Bytes) (bound : Option Bytes)
    → bound ≡ some g
    → generation_changed s g bound ≡ false
unfolding generation_changed
same_generation s g none h = cc
same_generation s g (some b) h =
    let same : b ≡ g = ground (arith, h) in ground (arith, same, beq_refl {A = Bytes} g)

rebind_same : (s : BoardStore) (g : Bytes) → s.access_generation ≡ some g → rebind s g false ≡ s
unfolding rebind
rebind_same s g h = λ i. record s { access_generation = sym h i }

kept_checked :
    (s : BoardStore) (g : Bytes) (r : Result Bytes)
    → s.access_generation ≡ some g
    → ((checked : Bytes) → r ≡ ok checked → checked ≡ g)
    → (bind_checked s r).0 ≡ s
unfolding bind_checked
kept_checked s g (err x) e same = refl
kept_checked s g (ok checked) e same =
    rw (same checked refl)
      (ap (λ b. rebind s g b) (same_generation s g s.access_generation e) ∙ rebind_same s g e)

-- Binding a store to the generation that it is bound to leaves the tables, be it valid or not.
pub bind_kept_generation :
    (s : BoardStore) (g : Bytes) → s.access_generation ≡ some g → (bind_access_generation s g).0 ≡ s
unfolding bind_access_generation
bind_kept_generation s g e =
    kept_checked s g (require_bytes g (some 16)) e
      (λ checked read. sym (require_bytes-eq-ok g 16 checked read).0)

-- Binding a store to the generation of sixteen bytes that it is bound to changes nothing and returns
-- false.
pub bind_same_generation :
    (s : BoardStore) (g : Bytes)
    → length g ≡ 16
    → s.access_generation ≡ some g
    → bind_access_generation s g ≡ (s, ok false)
bind_same_generation s g h e =
    bind-ok s g h
    ∙ ap (λ b. (rebind s g b, ok b)) (same_generation s g s.access_generation e)
    ∙ ap (λ x. (x, ok false)) (rebind_same s g e)
