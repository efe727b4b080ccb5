-- ===== src/Tests/Models.antt =====
-- Concrete packages for the tests: a bounded queue, a bounded channel and a map, each over lists.
use eo_ip_rs.Base.{
  ltb, if◌then◌else◌, lt→ltb, Bool-cases, le→not_ltb, length, ℕ, ◌≤◌, ◌<◌, ◌≡◌, refl, sym, ap, ◌∙◌,
  subst, ◌≢◌, inl, inr, Bool, true, false, Option, none, some, List, [], ◌∷◌, ◌++◌,
}
use mathlib.Core.List.{Memᴰ}
use mathlib.Core.List.Memᴰ
use eo_ip_rs.Packet.Pool.{ArrayQueue}
use eo_ip_rs.Packet.Rx.{Channel}
use eo_ip_rs.Tunnel.Registry.{DashMap}

module _ {A : Type 0} where
  abbrev pub push : A → List A × ℕ → (List A × ℕ) × Bool
  push a (xs, room) =
      if ltb (length xs) room then ((xs ++ a ∷ [], room), true) else ((xs, room), false)

  abbrev pub pop : List A × ℕ → (List A × ℕ) × Option A
  pop ([], room) = (([], room), none)
  pop (x ∷ xs, room) = ((xs, room), some x)

  pub push_taken : (a : A) (q : List A × ℕ) → length q.0 < q.1 → (push a q).0.0 ≡ q.0 ++ a ∷ []
  push_taken a (xs, room) fits = rw (lt→ltb (length xs) room fits) refl

  pub push_full : (a : A) (q : List A × ℕ) → q.1 ≤ length q.0 → (push a q).0.0 ≡ q.0
  push_full a (xs, room) full = rw (le→not_ltb (length xs) room full) refl

  pub room-push : (a : A) (q : List A × ℕ) → (push a q).0.1 ≡ q.1
  room-push a (xs, room) = elim (Bool-cases (ltb (length xs) room)) [
    | inl fits ↦ rw fits refl
    | inr full ↦ rw full refl
  ]

  pub pop_empty : (q : List A × ℕ) → q.0 ≡ [] → pop q ≡ (q, none)
  pop_empty ([], room) e = refl
  pop_empty (x ∷ xs, room) e = cc

  pub pop_item :
      (a : A) (rest : List A) (q : List A × ℕ)
      → q.0 ≡ a ∷ rest
      → ((pop q).1 ≡ some a) × ((pop q).0.0 ≡ rest)
  pop_item a rest ([], room) e = cc
  pop_item a rest (x ∷ xs, room) e = (cc, cc)

  pub room-pop : (q : List A × ℕ) → (pop q).0.1 ≡ q.1
  room-pop ([], room) = refl
  room-pop (x ∷ xs, room) = refl

  pub send_taken : (a : A) (q : List A × ℕ) → (push a q).1 ≡ true → (push a q).0.0 ≡ q.0 ++ a ∷ []
  send_taken a (xs, room) e = elim (Bool-cases (ltb (length xs) room)) [
    | inl fits ↦ rw fits refl
    | inr full ↦ absurd (cc (full, e))
  ]

  pub send_refused : (a : A) (q : List A × ℕ) → (push a q).1 ≡ false → (push a q).0 ≡ q
  send_refused a (xs, room) e = elim (Bool-cases (ltb (length xs) room)) [
    | inl fits ↦ absurd (cc (fits, e))
    | inr full ↦ rw full refl
  ]

abbrev pub list_queue : (A : Type 0) → ArrayQueue A
list_queue A = record {
  Queue = List A × ℕ;
  with_capacity = λ n. ([], n);
  push = push;
  pop = pop;
  items = λ q. q.0;
  room = λ q. q.1;
  items-new = λ n some_room. refl;
  room-new = λ n some_room. refl;
  push_taken = push_taken;
  push_full = push_full;
  room-push = room-push;
  pop_empty = pop_empty;
  pop_item = pop_item;
  room-pop = room-pop;
}

abbrev pub list_channel : (A : Type 0) → Channel A
list_channel A = record {
  Sender = List A × ℕ;
  sent = λ q. q.0;
  try_send = push;
  try_send_taken = send_taken;
  try_send_refused = send_refused;
}

module _ {K V : Type 0} (eq? : Discrete K) where
  abbrev pub get : K → List (K × V) → Option V
  get k [] = none
  get k ((j, v) ∷ m) = elim (eq? k j) [ yes _ ↦ some v | no _ ↦ get k m ]

  abbrev pub remove : K → List (K × V) → List (K × V)
  remove k [] = []
  remove k ((j, v) ∷ m) = elim (eq? k j) [ yes _ ↦ remove k m | no _ ↦ (j, v) ∷ remove k m ]

  abbrev pub entries : List (K × V) → List (K × V)
  entries [] = []
  entries ((k, v) ∷ m) = (k, v) ∷ remove k (entries m)

  pub get_same : (k j : K) (v : V) (m : List (K × V)) → k ≡ j → get k ((j, v) ∷ m) ≡ some v
  get_same k j v m e =
      elim (eq? k j) as (λ x. elim x [ yes _ ↦ some v | no _ ↦ get k m ] ≡ some v) [
        | yes _ ↦ refl
        | no ne ↦ absurd (ne e)
      ]

  pub get_other : (k j : K) (v : V) (m : List (K × V)) → k ≢ j → get k ((j, v) ∷ m) ≡ get k m
  get_other k j v m e =
      elim (eq? k j) as (λ x. elim x [ yes _ ↦ some v | no _ ↦ get k m ] ≡ get k m) [
        | yes s ↦ absurd (e s)
        | no ne ↦ refl
      ]

  remove_same : (k j : K) (v : V) (m : List (K × V)) → k ≡ j → remove k ((j, v) ∷ m) ≡ remove k m
  remove_same k j v m e =
      elim (eq? k j)
        as (λ x. elim x [ yes _ ↦ remove k m | no _ ↦ (j, v) ∷ remove k m ] ≡ remove k m) [
          | yes _ ↦ refl
          | no ne ↦ absurd (ne e)
        ]

  remove_other :
      (k j : K) (v : V) (m : List (K × V)) → k ≢ j → remove k ((j, v) ∷ m) ≡ (j, v) ∷ remove k m
  remove_other k j v m e =
      elim (eq? k j)
        as (λ x. elim x [ yes _ ↦ remove k m | no _ ↦ (j, v) ∷ remove k m ] ≡ (j, v) ∷ remove k m) [
          | yes s ↦ absurd (e s)
          | no ne ↦ refl
        ]

  pub get-remove_self : (k : K) (m : List (K × V)) → get k (remove k m) ≡ none
  get-remove_self k [] = refl
  get-remove_self k ((j, v) ∷ m) = elim (eq? k j) [
    | yes e ↦ rw (remove_same k j v m e) (get-remove_self k m)
    | no ne ↦ rw (remove_other k j v m ne, get_other k j v (remove k m) ne) (get-remove_self k m)
  ]

  pub get-remove_ne : (k j : K) (m : List (K × V)) → k ≢ j → get j (remove k m) ≡ get j m
  get-remove_ne k j [] other = refl
  get-remove_ne k j ((i, v) ∷ m) other = elim (eq? k i) [
    | yes e ↦
        rw (remove_same k i v m e, get_other j i v m (λ s. other (e ∙ sym s)))
          (get-remove_ne k j m other)
    | no ne ↦ rw (remove_other k i v m ne) (elim (eq? j i) [
      | yes s ↦ rw (get_same j i v m s, get_same j i v (remove k m) s) refl
      | no ns ↦
          rw (get_other j i v m ns, get_other j i v (remove k m) ns) (get-remove_ne k j m other)
    ])
  ]

  mem-remove :
      (k j : K) (v : V) (m : List (K × V)) → Memᴰ (k, v) (remove j m) → Memᴰ (k, v) m × (j ≢ k)
  mem-remove k j v [] m = absurd (Memᴰ.not-nil m)
  mem-remove k j v ((i, w) ∷ m) h = elim (eq? j i) [
    | yes e ↦
        let (there, other) = mem-remove k j v m (subst (Memᴰ (k, v)) (remove_same j i w m e) h) in
        (Memᴰ.tail there, other)
    | no ne ↦ elim (Memᴰ.cases_cons (subst (Memᴰ (k, v)) (remove_other j i w m ne) h)) [
      | inl same ↦ (Memᴰ.head same, λ s. ne (s ∙ ap (λ x. x.0) same))
      | inr t ↦ let (there, other) = mem-remove k j v m t in (Memᴰ.tail there, other)
    ]
  ]

  remove-mem :
      (k j : K) (v : V) (m : List (K × V)) → Memᴰ (k, v) m → j ≢ k → Memᴰ (k, v) (remove j m)
  remove-mem k j v [] h other = absurd (Memᴰ.not-nil h)
  remove-mem k j v ((i, w) ∷ m) h other = elim (eq? j i) [
    | yes e ↦ subst (Memᴰ (k, v)) (sym (remove_same j i w m e)) (elim (Memᴰ.cases_cons h) [
      | inl same ↦ absurd (other (e ∙ sym (ap (λ x. x.0) same)))
      | inr t ↦ remove-mem k j v m t other
    ])
    | no ne ↦ subst (Memᴰ (k, v)) (sym (remove_other j i w m ne)) (elim (Memᴰ.cases_cons h) [
      | inl same ↦ Memᴰ.head same
      | inr t ↦ Memᴰ.tail (remove-mem k j v m t other)
    ])
  ]

  pub get-mem : (k : K) (v : V) (m : List (K × V)) → Memᴰ (k, v) (entries m) → get k m ≡ some v
  get-mem k v [] h = absurd (Memᴰ.not-nil h)
  get-mem k v ((j, w) ∷ m) h = elim (Memᴰ.cases_cons h) [
    | inl same ↦ get_same k j w m (ap (λ x. x.0) same) ∙ ap (λ x. some x) (sym (ap (λ x. x.1) same))
    | inr t ↦
        let (there, other) = mem-remove k j v (entries m) t in
        get_other k j w m (λ s. other (sym s)) ∙ get-mem k v m there
  ]

  pub mem-get : (k : K) (v : V) (m : List (K × V)) → get k m ≡ some v → Memᴰ (k, v) (entries m)
  mem-get k v [] h = cc
  mem-get k v ((j, w) ∷ m) h = elim (eq? k j) [
    | yes s ↦ let value : w ≡ v = cc (get_same k j w m s, h) in Memᴰ.head (rw (s, value) refl)
    | no ne ↦ Memᴰ.tail (
        remove-mem k j v (entries m) (mem-get k v m (sym (get_other k j w m ne) ∙ h))
          (λ s. ne (sym s)))
  ]

abbrev pub list_map : {K : Type 0} → Discrete K → (V : Type 0) → DashMap K V
list_map {K} eq? V = record {
  Map = List (K × V);
  empty = [];
  insert = λ k v m. ((k, v) ∷ m, get eq? k m);
  remove = λ k m. (remove eq? k m, elim (get eq? k m) [ none ↦ none | some v ↦ some (k, v) ]);
  get = get eq?;
  entries = entries eq?;
  get-empty = λ k. refl;
  insert_old = λ k v m. refl;
  get-insert_self = λ k v m. get_same eq? k k v m refl;
  get-insert_ne = λ k j v m other. get_other eq? j k v m (λ s. other (sym s));
  get-remove_self = get-remove_self eq?;
  get-remove_ne = get-remove_ne eq?;
  get-mem = get-mem eq?;
  mem-get = mem-get eq?;
}
