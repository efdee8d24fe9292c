-- ===== src/Broker/Table.antt =====
-- The table that broker.cpp implements: for each message the list of its receivers.
use minicomps.Prelude.{
  ℕ, ◌≡◌, refl, Bool, true, false, not, ◌&&◌, ◌||◌, none, some, List, [], ◌∷◌, ◌++◌, ◌∙◌, arith,
  ◌==◌, if◌then◌else◌, keep, any, Map, find, keys, find-put, is_some,
}
use minicomps.Broker.{
  Broker, Receivers, store, associate, disassociate, invalidate, disassociate_all,
  disassociate_everything, lookup,
}

unfoldable pub receivers : Broker → ℕ → List ℕ
receivers b msg = elim (find msg b.active_lookups) [ none ↦ [] | some r ↦ r.items ]

unfoldable pub has_entry : Broker → ℕ → Bool
has_entry b msg = is_some (find msg b.active_lookups)

-- What `disassociate` leaves of a list of receivers.
abbrev pub without : (ℕ → Bool) → ℕ → List ℕ → List ℕ
without alive comp = keep (λ r. alive r && not (r == comp))

pub receivers-store :
    (b : Broker) (m n : ℕ) (items : List ℕ)
    → receivers (store b m items) n ≡ (if m == n then items else receivers b n)
unfolding receivers store
receivers-store b m n items =
    ground
      (arith, find-put m n (record { version = b.next_version; items = items }) b.active_lookups)

pub has_entry-store :
    (b : Broker) (m n : ℕ) (items : List ℕ)
    → has_entry (store b m items) n ≡ (m == n || has_entry b n)
unfolding has_entry store
has_entry-store b m n items =
    ground
      (arith, find-put m n (record { version = b.next_version; items = items }) b.active_lookups)

-- Each operation is a write of one entry.
pub associate-store : (b : Broker) (m c : ℕ) → associate b m c ≡ store b m (receivers b m ++ c ∷ [])
unfolding associate receivers
associate-store b m c = ground arith

pub disassociate-store :
    (alive : ℕ → Bool) (b : Broker) (m c : ℕ)
    → disassociate alive b m c
      ≡ (if has_entry b m then some (store b m (without alive c (receivers b m))) else none)
unfolding disassociate receivers has_entry
disassociate-store alive b m c = ground arith

pub invalidate-store :
    (b : Broker) (m : ℕ) → invalidate b m ≡ (if has_entry b m then store b m (receivers b m) else b)
unfolding invalidate receivers has_entry
invalidate-store b m = ground arith

pub lookup-store :
    (b : Broker) (m : ℕ) → (lookup b m).1 ≡ (if has_entry b m then b else store b m [])
unfolding lookup has_entry
lookup-store b m = ground arith

pub has_entry-receivers : (b : Broker) (m : ℕ) → has_entry b m ≡ false → receivers b m ≡ []
unfolding has_entry receivers
has_entry-receivers b m h = ground arith

-- `associate` puts the component behind the receivers of its message, and changes no other message.
pub receivers-associate :
    (b : Broker) (m c n : ℕ)
    → receivers (associate b m c) n ≡ (if m == n then receivers b m ++ c ∷ [] else receivers b n)
receivers-associate b m c n = rw (associate-store b m c) (receivers-store b m n _)

-- `lookup` and `invalidate` change no list of receivers.
pub receivers-lookup : (b : Broker) (m n : ℕ) → receivers (lookup b m).1 n ≡ receivers b n
receivers-lookup b m n =
    ground (arith, lookup-store b m, receivers-store b m n [], has_entry-receivers b m)

pub receivers-invalidate : (b : Broker) (m n : ℕ) → receivers (invalidate b m) n ≡ receivers b n
receivers-invalidate b m n =
    ground (arith, invalidate-store b m, receivers-store b m n (receivers b m))

-- The keys that the loop goes over are the messages with an entry.
is_some-find : (m : ℕ) (l : Map Receivers) → is_some (find m l) ≡ any (λ k. k == m) (keys l)
unfolding find keys
is_some-find m [] = refl
is_some-find m ((k, r) ∷ l) = ground (arith, is_some-find m l)

pub has_entry-keys :
    (b : Broker) (m : ℕ) → has_entry b m ≡ any (λ k. k == m) (keys b.active_lookups)
unfolding has_entry
has_entry-keys b m = is_some-find m b.active_lookups

keep-keep : (p : ℕ → Bool) (xs : List ℕ) → keep p (keep p xs) ≡ keep p xs
keep-keep p [] = refl
keep-keep p (x ∷ xs) = ground (arith, keep-keep p xs)

-- What is true of the broker after `disassociate` for each message of a list.
pub record Cleared (alive : ℕ → Bool) (c : ℕ) (ks : List ℕ) (b b' : Broker) : Type 0 where
  pub listed :
      (n : ℕ)
      → receivers b' n
        ≡ (if any (λ k. k == n) ks then without alive c (receivers b n) else receivers b n)
  pub entries : (n : ℕ) → has_entry b' n ≡ has_entry b n

Cleared-cons :
    {alive : ℕ → Bool} {c k : ℕ} {ks : List ℕ} {b b' : Broker}
    → has_entry b k ≡ true
    → Cleared alive c ks (store b k (without alive c (receivers b k))) b'
    → Cleared alive c (k ∷ ks) b b'
Cleared-cons {alive} {c} {k} {ks} {b} h rest = record {
  listed = λ n.
      let l = without alive c (receivers b k) in
      ground (
        arith,
        rest.listed n,
        receivers-store b k n l,
        keep-keep (λ r. alive r && not (r == c)) (receivers b k),
      );
  entries =
      λ n. ground (arith, rest.entries n, has_entry-store b k n (without alive c (receivers b k)));
}

pub disassociate_all-Cleared :
    (alive : ℕ → Bool) (c : ℕ) (ks : List ℕ) (b : Broker)
    → ((k : ℕ) → any (λ j. j == k) ks ≡ true → has_entry b k ≡ true)
    → (b' : Broker) × (disassociate_all alive c ks b ≡ some b') × Cleared alive c ks b b'
unfolding disassociate_all
disassociate_all-Cleared alive c [] b h =
    (b, refl, record { listed = λ n. refl; entries = λ n. refl })
disassociate_all-Cleared alive c (k ∷ ks) b h =
    let found : has_entry b k ≡ true = h k (ground arith) in
    let b1 = store b k (without alive c (receivers b k)) in
    let (b', e, rest) = disassociate_all-Cleared alive c ks b1 (λ j m. kept j m) in
    (b', rw (disassociate-store alive b k c, found) e, Cleared-cons found rest)
  where
    kept :
        (j : ℕ)
        → any (λ i. i == j) ks ≡ true
        → has_entry (store b k (without alive c (receivers b k))) j ≡ true
    kept j m = ground (arith, h j, has_entry-store b k j (without alive c (receivers b k)))

-- `disassociate_everything` never reaches `std::abort`: it drops the component, and every receiver
-- that has expired, from the list of every message, and keeps the others in their order.
pub disassociate_everything-receivers :
    (alive : ℕ → Bool) (b : Broker) (c : ℕ)
    → (b' : Broker) × (disassociate_everything alive b c ≡ some b')
      × ((n : ℕ) → receivers b' n ≡ without alive c (receivers b n))
unfolding disassociate_everything
disassociate_everything-receivers alive b c =
    let (b', e, done) =
      disassociate_all-Cleared alive c (keys b.active_lookups) b (λ k m. has_entry-keys b k ∙ m) in
    (b', e, λ n. ground (arith, done.listed n, has_entry-keys b n, has_entry-receivers b n))
