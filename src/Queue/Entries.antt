-- ===== src/Queue/Entries.antt =====
-- The ready entries of a queue (src/infrastructure/queue/in_memory.py): taking one out, and the lowest.
use agentic_gpu_platform.Shared.{
  ==_iff, Bool-cases, Has, Has-append_left, Has-append_right, Has-cons, Has-split, List, Map, [],
  ap, arith, false, here, inl, inr, length, length-append, none, pop, refl, some, subst, sym, there,
  true, ℕ, ℤ, ◌+◌, ◌<◌, ◌==◌, ◌∷◌, ◌≡◌, ◌≤◌, ◌⊎◌,
}
use agentic_gpu_platform.Enums.{JobType}
use agentic_gpu_platform.Queue.{
  Entry, Ready, drop_ready, earlier, entries, entries_of, lowest, same_type, type_number,
}

-- Taking an id out of one type's dictionary.
entries_of-pop :
    (t : JobType) (k : ℕ) (m : Map ℤ) {e : Entry}
    → Has e (entries_of t (pop k m))
    → Has e (entries_of t m)
unfolding entries_of pop
entries_of-pop t k [] h = h
entries_of-pop t k ((i, s) ∷ m) h = elim (Bool-cases (i == k)) [
  | inl q ↦ there (entries_of-pop t k m (rw q at h))
  | inr q ↦ elim (Has-cons (entries_of t (pop k m)) (rw q at h)) [
    | inl p ↦ here p
    | inr r ↦ there (entries_of-pop t k m r)
  ]
]

pop-entries_of :
    (t : JobType) (k : ℕ) (m : Map ℤ) {e : Entry}
    → Has e (entries_of t m)
    → (e.id == k) ≡ false
    → Has e (entries_of t (pop k m))
unfolding entries_of pop
pop-entries_of t k [] h n = h
pop-entries_of t k ((i, s) ∷ m) (here p) n =
    rw (subst (λ (x : Entry). (x.id == k) ≡ false) (sym p) n) (here p)
pop-entries_of t k ((i, s) ∷ m) (there h) n = elim (Bool-cases (i == k)) [
  | inl q ↦ rw q (pop-entries_of t k m h n)
  | inr q ↦ rw q (there (pop-entries_of t k m h n))
]

length-entries_of-le :
    (t : JobType) (k : ℕ) (m : Map ℤ) → length (entries_of t (pop k m)) ≤ length (entries_of t m)
unfolding entries_of pop
length-entries_of-le t k [] = omega arith
length-entries_of-le t k ((i, s) ∷ m) = elim (Bool-cases (i == k)) [
  | inl q ↦ rw q (omega (arith, length-entries_of-le t k m))
  | inr q ↦ rw q (omega (arith, length-entries_of-le t k m))
]

length-entries_of-lt :
    (t : JobType) (m : Map ℤ) (e : Entry)
    → Has e (entries_of t m)
    → length (entries_of t (pop e.id m)) < length (entries_of t m)
unfolding entries_of pop
length-entries_of-lt t [] e h = elim h [ ]
length-entries_of-lt t ((i, s) ∷ m) e h = elim (Has-cons (entries_of t m) h) [
  | inl p ↦
      let same : (i == e.id) ≡ true = (==_iff i e.id).1 (ap (λ (x : Entry). x.id) p) in
      rw same (omega (arith, length-entries_of-le t e.id m))
  | inr r ↦ elim (Bool-cases (i == e.id)) [
    | inl q ↦ rw q (omega (arith, length-entries_of-le t e.id m))
    | inr q ↦ rw q (omega (arith, length-entries_of-lt t m e r))
  ]
]

type-entries_of : (t : JobType) (m : Map ℤ) {e : Entry} → Has e (entries_of t m) → e.type ≡ t
unfolding entries_of
type-entries_of t [] h = elim h [ ]
type-entries_of t ((i, s) ∷ m) (here p) = sym (ap (λ (x : Entry). x.type) p)
type-entries_of t ((i, s) ∷ m) (there h) = type-entries_of t m h

-- Taking an id out of one type.
pub entries-drop :
    (ts : List JobType) (t : JobType) (k : ℕ) (r : Ready) {e : Entry}
    → Has e (entries ts (drop_ready t k r))
    → Has e (entries ts r)
unfolding entries drop_ready
entries-drop [] t k r h = h
entries-drop (u ∷ ts) t k r h = elim (Bool-cases (same_type u t)) [
  | inl q ↦ elim (Has-split (entries_of u (pop k (r u))) (rw q at h)) [
    | inl l ↦ Has-append_left (entries ts r) (entries_of-pop u k (r u) l)
    | inr m ↦ Has-append_right (entries_of u (r u)) (entries-drop ts t k r m)
  ]
  | inr q ↦ elim (Has-split (entries_of u (r u)) (rw q at h)) [
    | inl l ↦ Has-append_left (entries ts r) l
    | inr m ↦ Has-append_right (entries_of u (r u)) (entries-drop ts t k r m)
  ]
]

pub drop-entries :
    (ts : List JobType) (t : JobType) (k : ℕ) (r : Ready) {e : Entry}
    → Has e (entries ts r)
    → (e.id == k) ≡ false
    → Has e (entries ts (drop_ready t k r))
unfolding entries drop_ready
drop-entries [] t k r h n = h
drop-entries (u ∷ ts) t k r h n = elim (Bool-cases (same_type u t)) [
  | inl q ↦ rw q (elim (Has-split (entries_of u (r u)) h) [
    | inl l ↦ Has-append_left (entries ts (drop_ready t k r)) (pop-entries_of u k (r u) l n)
    | inr m ↦ Has-append_right (entries_of u (pop k (r u))) (drop-entries ts t k r m n)
  ])
  | inr q ↦ rw q (elim (Has-split (entries_of u (r u)) h) [
    | inl l ↦ Has-append_left (entries ts (drop_ready t k r)) l
    | inr m ↦ Has-append_right (entries_of u (r u)) (drop-entries ts t k r m n)
  ])
]

length-entries :
    (u : JobType) (ts : List JobType) (r : Ready)
    → length (entries (u ∷ ts) r) ≡ length (entries_of u (r u)) + length (entries ts r)
unfolding entries
length-entries u ts r = length-append (entries_of u (r u)) (entries ts r)

-- The share of one type.
length-share-le :
    (u t : JobType) (k : ℕ) (r : Ready)
    → length (entries_of u (drop_ready t k r u)) ≤ length (entries_of u (r u))
unfolding drop_ready
length-share-le u t k r = elim (Bool-cases (same_type u t)) [
  | inl q ↦ rw q (length-entries_of-le u k (r u))
  | inr q ↦ rw q (omega arith)
]

length-share-lt :
    (u : JobType) (e : Entry) (r : Ready)
    → Has e (entries_of u (r u))
    → length (entries_of u (drop_ready e.type e.id r u)) < length (entries_of u (r u))
unfolding drop_ready
length-share-lt u e r m =
    let same : same_type u e.type ≡ true =
      (==_iff _ _).1 (ap type_number (sym (type-entries_of u (r u) m))) in
    rw same (length-entries_of-lt u (r u) e m)

length-drop-le :
    (ts : List JobType) (t : JobType) (k : ℕ) (r : Ready)
    → length (entries ts (drop_ready t k r)) ≤ length (entries ts r)
length-drop-le [] t k r = unfold entries in omega arith
length-drop-le (u ∷ ts) t k r = omega (
  arith,
  length-entries u ts r,
  length-entries u ts (drop_ready t k r),
  length-share-le u t k r,
  length-drop-le ts t k r,
)

Has-entries :
    (u : JobType) (ts : List JobType) (r : Ready) {e : Entry}
    → Has e (entries (u ∷ ts) r)
    → Has e (entries_of u (r u)) ⊎ Has e (entries ts r)
unfolding entries
Has-entries u ts r m = Has-split (entries_of u (r u)) m

-- There is one entry less after an entry was taken out.
pub length-drop-lt :
    (ts : List JobType) (r : Ready) (e : Entry)
    → Has e (entries ts r)
    → length (entries ts (drop_ready e.type e.id r)) < length (entries ts r)
length-drop-lt [] r e h = absurd (unfold entries in elim h [ ])
length-drop-lt (u ∷ ts) r e h =
    let before = length-entries u ts r in
    let later = length-entries u ts (drop_ready e.type e.id r) in
    elim (Has-entries u ts r h) [
      | inl l ↦
          omega (arith, before, later, length-share-lt u e r l, length-drop-le ts e.type e.id r)
      | inr m ↦
          omega (arith, before, later, length-share-le u e.type e.id r, length-drop-lt ts r e m)
    ]

earlier-cotrans : (a b c : Entry) → earlier b a ≡ false → earlier c b ≡ false → earlier c a ≡ false
earlier-cotrans a b c h k = ground arith

earlier-asym : (a b : Entry) → earlier a b ≡ true → earlier b a ≡ false
earlier-asym a b h = ground arith

lowest_from :
    (b : Entry) (es : List Entry)
    → (m : Entry) × (lowest (some b) es ≡ some m)
      × ((b ≡ m) ⊎ Has m es)
      × (earlier b m ≡ false)
      × ((e : Entry) → Has e es → earlier e m ≡ false)
unfolding lowest
lowest_from b [] = (b, refl, inl refl, ground arith, λ e h. elim h [ ])
lowest_from b (x ∷ xs) = elim (Bool-cases (earlier x b)) [
  | inl q ↦
      let (m, found, from, low, least) = lowest_from x xs in
      (
        m,
        rw q found,
        inr (elim from [ inl p ↦ here p | inr h ↦ there h ]),
        earlier-cotrans m x b low (earlier-asym x b q),
        λ e h. elim (Has-cons xs h) [
          | inl p ↦ subst (λ y. earlier y m ≡ false) p low
          | inr r ↦ least e r
        ],
      )
  | inr q ↦
      let (m, found, from, low, least) = lowest_from b xs in
      (
        m,
        rw q found,
        elim from [ inl p ↦ inl p | inr h ↦ inr (there h) ],
        low,
        λ e h. elim (Has-cons xs h) [
          | inl p ↦ subst (λ y. earlier y m ≡ false) p (earlier-cotrans m b x low q)
          | inr r ↦ least e r
        ],
      )
]

-- The lowest entry is one of the entries, and none is earlier; there is none only of no entries.
pub lowest_lem :
    (es : List Entry)
    → (lowest none es ≡ none) × (es ≡ [])
      ⊎ ((m : Entry) × (lowest none es ≡ some m)
          × Has m es
          × ((e : Entry) → Has e es → earlier e m ≡ false))
unfolding lowest
lowest_lem [] = inl (refl, refl)
lowest_lem (x ∷ xs) =
    let (m, found, from, low, least) = lowest_from x xs in
    inr (
      m,
      found,
      elim from [ inl p ↦ here p | inr h ↦ there h ],
      λ e h. elim (Has-cons xs h) [
        | inl p ↦ subst (λ y. earlier y m ≡ false) p low
        | inr r ↦ least e r
      ],
    )
