-- ===== src/Link/Handler.antt =====
-- Machine.cpp: the reply handler, which handles all replies on the channel, one after the other.
use mathlib.Core.Option
use project.Prelude.{◌≡◌, refl, sym, ap, subst, ◌∙◌, Option, none, some, List, [], ◌∷◌}
use project.Machine.Data.{Message}
use project.Machine.Server.{Os}
use project.Vm.Data.{ThreadStore}
use project.Vm.Reply.{handle_reply, reply_signal_handler}
use project.Link.Defs.{start, IsUnused, Reach, next, Link, replies}
use project.Link.Moves.{Handles, IsHandled}
use project.Link.Delivery.{Reach-Handles}

same : {A : Type 0} {x y : A} → some x ≡ some y → x ≡ y
same e = cc

module _ {World : Type 0} (os : Os World) (s0 : ThreadStore) (w : World)
    (u : IsUnused s0.machine) where
  abbrev Reached : Link World → Type 0
  Reached = Reach os (start s0 w)

  -- The first reply is handled.
  first-IsHandled :
      (q : Message) (rest : List Message) (l : Link World)
      → Reached (record l { replies = q ∷ rest })
      → (s : ThreadStore) × (handle_reply q l.store ≡ some s) × IsHandled q l.store s
  first-IsHandled q rest l r =
      from (handle_reply q l.store) refl (Reach-Handles os s0 w u r q rest refl)
    where
      from :
          (h : Option ThreadStore)
          → handle_reply q l.store ≡ h
          → Handles q l.store h
          → (s : ThreadStore) × (handle_reply q l.store ≡ some s) × IsHandled q l.store s
      from none k h = absurd h
      from (some s) k h = (s, k, h)

  -- What every reply keeps, the handler keeps; and its run is that many steps of the two processes.
  pub handler-Reach :
      (P : ThreadStore → Type 0)
      → ((q : Message) (s s' : ThreadStore) → IsHandled q s s' → P s → P s')
      → (queue : List Message) (l : Link World) (s : ThreadStore)
      → reply_signal_handler queue l.store ≡ some s
      → Reached (record l { replies = queue })
      → P l.store
      → Reached (record l { store = s; replies = [] }) × P s
  unfolding reply_signal_handler Option.bind
  handler-Reach P keeps [] l s e r p =
      subst (λ x. Reached (record l { store = x; replies = [] }) × P x) (same e) (r, p)
  handler-Reach P keeps (q ∷ rest) l s e r p =
      let (s1, k, h) = first-IsHandled q rest l r in
      handler-Reach P keeps rest (record l { store = s1 }) s
        (ap (λ o. Option.bind o (reply_signal_handler rest)) (sym k) ∙ e)
        (next r (replies q rest s1 refl k)) (keeps q l.store s1 h p)

  -- The handler comes to its end.
  pub handler-total :
      (queue : List Message) (l : Link World)
      → Reached (record l { replies = queue })
      → (s : ThreadStore) × (reply_signal_handler queue l.store ≡ some s)
  unfolding reply_signal_handler Option.bind
  handler-total [] l r = (l.store, refl)
  handler-total (q ∷ rest) l r =
      let (s1, k, h) = first-IsHandled q rest l r in
      let (s, e) =
        handler-total rest (record l { store = s1 }) (next r (replies q rest s1 refl k)) in
      (s, ap (λ o. Option.bind o (reply_signal_handler rest)) k ∙ e)
