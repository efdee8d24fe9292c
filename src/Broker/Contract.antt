-- ===== src/Broker/Contract.antt =====
-- What broker.cpp promises to its callers, without blocks and versions: who listens to a message, and
-- whether the message has ever been named to the broker.
use minicomps.Prelude.{
  ℕ, ◌≡◌, refl, ap, ◌∙◌, fun_ext, Bool, true, false, ◌||◌, Option, none, some, List, [], ◌∷◌, ◌++◌,
  arith, ◌==◌, if◌then◌else◌, keys,
}
use minicomps.Broker.{Broker, store, and_then, invalidate, lookup, disassociate_everything}
use minicomps.Broker.Handles.{
  Call, associates, disassociates, invalidates, disassociates_everything, looks_up, run,
}
use minicomps.Broker.Handles
use minicomps.Broker.Table.{
  receivers, has_entry, without, receivers-store, has_entry-store, associate-store,
  disassociate-store, invalidate-store, lookup-store, receivers-lookup, receivers-invalidate,
  has_entry-keys, has_entry-receivers, disassociate_all-Cleared,
}

pub record Table : Type 0 where
  pub listeners : ℕ → List ℕ
  pub named : ℕ → Bool

abbrev pub unused : Table
unused = record { listeners = λ n. []; named = λ n. false }

unfoldable pub write : Table → ℕ → List ℕ → Table
write t m l = record {
  listeners = λ n. if m == n then l else t.listeners n;
  named = λ n. m == n || t.named n;
}

-- `none` is `std::abort`.
unfoldable pub step : Call → Table → Option Table
step (associates m c) t = some (write t m (t.listeners m ++ c ∷ []))
step (disassociates alive m c) t =
    if t.named m then some (write t m (without alive c (t.listeners m))) else none
step (invalidates m) t = some t
step (disassociates_everything alive c) t =
    some (record t { listeners = λ n. without alive c (t.listeners n) })
step (looks_up m) t = some (record t { named = λ n. m == n || t.named n })

abbrev pub then_step : Option Table → (Table → Option Table) → Option Table
then_step none f = none
then_step (some t) f = f t

unfoldable pub execute : List Call → Table → Option Table
execute [] t = some t
execute (c ∷ cs) t = then_step (step c t) (execute cs)

unfoldable pub view : Broker → Table
view b = record { listeners = receivers b; named = has_entry b }

abbrev pub view_result : Option Broker → Option Table
view_result none = none
view_result (some b) = some (view b)

same :
    {t u : Table}
    → ((n : ℕ) → t.listeners n ≡ u.listeners n)
    → ((n : ℕ) → t.named n ≡ u.named n)
    → t ≡ u
same {t} {u} l n = λ i. record { listeners = fun_ext l i; named = fun_ext n i }

view-store : (b : Broker) (m : ℕ) (l : List ℕ) → view (store b m l) ≡ write (view b) m l
unfolding view write
view-store b m l = same (λ n. receivers-store b m n l) (λ n. has_entry-store b m n l)

view-everything :
    (alive : ℕ → Bool) (b : Broker) (c : ℕ)
    → view_result (disassociate_everything alive b c)
      ≡ step (disassociates_everything alive c) (view b)
unfolding disassociate_everything step view
view-everything alive b c =
    let (b', e, done) =
      disassociate_all-Cleared alive c (keys b.active_lookups) b (λ k m. has_entry-keys b k ∙ m) in
    ap view_result e
    ∙ ap some (
        same (λ n. ground (arith, done.listed n, has_entry-keys b n, has_entry-receivers b n))
          done.entries)

view_if :
    (h : Bool) (b : Broker)
    → view_result (if h then some b else none) ≡ (if h then some (view b) else none)
view_if true b = refl
view_if false b = refl

has_entry-invalidate : (b : Broker) (m n : ℕ) → has_entry (invalidate b m) n ≡ has_entry b n
has_entry-invalidate b m n =
    ground (arith, invalidate-store b m, has_entry-store b m n (receivers b m))

has_entry-lookup : (b : Broker) (m n : ℕ) → has_entry (lookup b m).1 n ≡ (m == n || has_entry b n)
has_entry-lookup b m n = ground (arith, lookup-store b m, has_entry-store b m n [])

view-step : (c : Call) (b : Broker) → view_result (Handles.step c b) ≡ step c (view b)
unfolding Handles.step step view
view-step (associates m c) b =
    ap (λ x. some (view x)) (associate-store b m c) ∙ ap some (view-store b m _)
view-step (disassociates alive m c) b =
    ap view_result (disassociate-store alive b m c)
    ∙ view_if (has_entry b m) (store b m (without alive c (receivers b m)))
    ∙ ap (λ t. if has_entry b m then some t else none)
        (view-store b m (without alive c (receivers b m)))
view-step (invalidates m) b = ap some (same (receivers-invalidate b m) (has_entry-invalidate b m))
view-step (disassociates_everything alive c) b = view-everything alive b c
view-step (looks_up m) b = ap some (same (receivers-lookup b m) (has_entry-lookup b m))

view-and_then :
    (o : Option Broker) (f : Broker → Option Broker) (g : Table → Option Table)
    → ((b : Broker) → view_result (f b) ≡ g (view b))
    → view_result (and_then o f) ≡ then_step (view_result o) g
view-and_then none f g h = refl
view-and_then (some b) f g h = h b

-- The broker does what the table does.
pub run-execute : (cs : List Call) (b : Broker) → view_result (run cs b) ≡ execute cs (view b)
unfolding run execute
run-execute [] b = refl
run-execute (c ∷ cs) b =
    view-and_then (Handles.step c b) (run cs) (execute cs) (run-execute cs)
    ∙ ap (λ t. then_step t (execute cs)) (view-step c b)
