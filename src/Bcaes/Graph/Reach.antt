-- ===== src/Bcaes/Graph/Reach.antt =====
-- bcaes_registry/graph.py: `transitive_dependencies`, against the chains of declared dependencies.
use bhiv_masterdb_ingestion.Prelude.{
  ◌≡◌, refl, ◌∙◌, sym, subst, inl, inr, ◌⊎◌, ◌↔◌, ◌≢◌, ℕ, zero, suc, ◌<◌, true, ◌||◌, Option, some,
  List, [], ◌∷◌, ◌++◌, Key, ◌==◌, elem, elem-append, ok, err, arith, Bool-cases, Result-cases,
  ==→eq, ==_refl,
}
use bhiv_masterdb_ingestion.Bcaes.Models.{registry_types, DependencyRef, RegistryObject}
use bhiv_masterdb_ingestion.Bcaes.Store.{RegistryError, CanonicalRegistryStore, get_by_id}
use bhiv_masterdb_ingestion.Bcaes.Graph.{
  WalkState, noted, walk_all, walk, from_first, keys_of, dedup, TransitiveDependencies,
  transitive_dependencies, enough_fuel, report, start,
}
use bhiv_masterdb_ingestion.Bcaes.Graph.Walk.{
  ids, Edge, Reaches, direct, further, unseen, Within, unseen-Within, unseen-cons, unseen-nil,
  elem-keys_of_found,
}

module _ (s : CanonicalRegistryStore) (root : Key) where
  abbrev From : Key → Type 0
  From k = (k ≡ root) ⊎ Reaches s root k

  follow : (u v : Key) → From u → Edge s u v → Reaches s root v
  follow u v (inl e) edge = direct (subst (λ k. Edge s k v) e edge)
  follow u v (inr r) edge = further r edge

  abbrev IsNoted : Key → WalkState → Type 0
  IsNoted v w = (v ≡ root) ⊎ (elem v w.order ≡ true)

  -- What a call adds: marks only grow, a vertex that is newly marked has its successors marked and
  -- noted, and what is noted is reachable.
  record Walked (w w' : WalkState) : Type 0 where
    kept : Within w.visited w'.visited
    listed : Within w.order w'.order
    closed :
        (u v : Key)
        → elem u w'.visited ≡ true
        → Edge s u v
        → (elem u w.visited ≡ true) ⊎ (elem v w'.visited ≡ true) × IsNoted v w'
    sound :
        (x : Key) → elem x w'.order ≡ true → (elem x w.order ≡ true) ⊎ Reaches s root x × (x ≢ root)

  Walked-refl : (w w' : WalkState) → w'.visited ≡ w.visited → w'.order ≡ w.order → Walked w w'
  Walked-refl w w' e f = record {
    kept = λ x h. rw e h;
    listed = λ x h. rw f h;
    closed = λ u v h edge. inl (subst (λ l. elem u l ≡ true) e h);
    sound = λ x h. inl (subst (λ l. elem x l ≡ true) f h);
  }

  IsNoted-Within :
      (v : Key) (w w' : WalkState) → Within w.order w'.order → IsNoted v w → IsNoted v w'
  IsNoted-Within v w w' h (inl e) = inl e
  IsNoted-Within v w w' h (inr m) = inr (h v m)

  Walked-trans : {w w' w'' : WalkState} → Walked w w' → Walked w' w'' → Walked w w''
  Walked-trans {w} {w'} {w''} a b = record {
    kept = λ x h. b.kept x (a.kept x h);
    listed = λ x h. b.listed x (a.listed x h);
    closed = λ u v h edge. elim (b.closed u v h edge) [
      | inr new ↦ inr new
      | inl old ↦ elim (a.closed u v old edge) [
        | inl older ↦ inl older
        | inr (m, n) ↦ inr (b.kept v m, IsNoted-Within v w' w'' b.listed n)
      ]
    ];
    sound = λ x h. elim (b.sound x h) [ inr r ↦ inr r | inl old ↦ a.sound x old ];
  }

  noted-visited : (v : Key) (w : WalkState) → (noted root v w).visited ≡ w.visited
  noted-visited v w = ground arith

  noted-Within : (v : Key) (w : WalkState) → Within w.order (noted root v w).order
  noted-Within v w x h = ground (arith, elem-append x w.order (v ∷ []))

  noted-IsNoted : (v : Key) (w : WalkState) → IsNoted v (noted root v w)
  noted-IsNoted v w = elim (Bool-cases (v == root)) [
    | inl self ↦ inl (==→eq v root self)
    | inr other ↦ inr (ground (arith, elem-append v w.order (v ∷ [])))
  ]

  noted_sound :
      (v : Key) (w : WalkState)
      → Reaches s root v
      → (x : Key) → elem x (noted root v w).order ≡ true
      → (elem x w.order ≡ true) ⊎ Reaches s root x × (x ≢ root)
  noted_sound v w r x h = elim (Bool-cases (v == root)) [
    | inl at_root ↦ inl (ground arith)
    | inr away ↦ elim (Bool-cases (x == v)) [
      | inl self ↦
          let e = ==→eq x v self in (inr (subst (Reaches s root) (sym e) r, λ f. ground arith))
      | inr other ↦ inl (ground (arith, elem-append x w.order (v ∷ [])))
    ]
  ]

  noted-Walked : (v : Key) (w : WalkState) → Reaches s root v → Walked w (noted root v w)
  noted-Walked v w r = record {
    kept = λ x h. rw (noted-visited v w) h;
    listed = noted-Within v w;
    closed = λ u x h edge. inl (subst (λ l. elem u l ≡ true) (noted-visited v w) h);
    sound = noted_sound v w r;
  }

  -- The path of the call is marked, and the fuel exceeds the number of unmarked ids.
  abbrev Fits : List Key → ℕ → WalkState → Type 0
  Fits path fuel w = Within path w.visited × (unseen (keys_of s registry_types) w.visited < fuel)

  Fits-Walked :
      (path : List Key) (fuel : ℕ) (w w' : WalkState)
      → Walked w w'
      → Fits path fuel w
      → Fits path fuel w'
  Fits-Walked path fuel w w' h (on_path, enough) = (
    λ x m. h.kept x (on_path x m),
    omega (arith, unseen-Within (keys_of s registry_types) w.visited w'.visited h.kept),
  )

  -- What a call of `walk` at `k` promises.
  abbrev Visits : Key → Option WalkState → WalkState → Type 0
  Visits k result w =
      (w' : WalkState) × (result ≡ some w') × Walked w w' × (elem k w'.visited ≡ true)

  module _ (path : List Key) (fuel : ℕ) (call : Key → WalkState → Option WalkState)
      (good : (k : Key) (w : WalkState) → From k → Fits path fuel w → Visits k (call k w) w) where
    walk_all_lem :
        (ds : List DependencyRef) (w : WalkState)
        → ((v : Key) → elem v (ids ds) ≡ true → Reaches s root v)
        → Fits path fuel w
        → (w' : WalkState) × (walk_all root call ds w ≡ some w')
          × Walked w w'
          × ((v : Key) → elem v (ids ds) ≡ true → (elem v w'.visited ≡ true) × IsNoted v w')
    unfolding walk_all
    walk_all_lem [] w r fits = (w, refl, Walked-refl w w refl refl, λ v h. cc)
    walk_all_lem (d ∷ ds) w r fits =
        let at_d : elem d.id (ids (d ∷ ds)) ≡ true = ground (arith, ==_refl d.id) in
        let first = noted-Walked d.id w (r d.id at_d) in
        let w₁ = noted root d.id w in
        let (w₂, e₂, walked₂, marked) =
          good d.id w₁ (inr (r d.id at_d)) (Fits-Walked path fuel w w₁ first fits) in
        let both = Walked-trans first walked₂ in
        let (w₃, e₃, walked₃, rest) =
          walk_all_lem ds w₂ (λ v h. r v (ground arith)) (Fits-Walked path fuel w w₂ both fits) in
        let shape : walk_all root call (d ∷ ds) w ≡ walk_all root call ds w₂ = ground arith in
        (
          w₃,
          shape ∙ e₃,
          Walked-trans both walked₃,
          λ v h. elim (Bool-cases (v == d.id)) [
            | inl self ↦
                let e = ==→eq v d.id self in
                (
                  walked₃.kept v (subst (λ k. elem k w₂.visited ≡ true) (sym e) marked),
                  IsNoted-Within v w₂ w₃ walked₃.listed (
                      IsNoted-Within v w₁ w₂ walked₂.listed
                        (subst (λ k. IsNoted k w₁) (sym e) (noted-IsNoted d.id w))),
                )
            | inr other ↦ rest v (ground arith)
          ],
        )

  entered : Key → WalkState → WalkState
  entered k w = record w { visited = k ∷ w.visited }

  -- The mark of `k` is closed off: each of its dependencies is marked and noted.
  abbrev IsClosed : Key → WalkState → Type 0
  IsClosed k w = (v : Key) → Edge s k v → (elem v w.visited ≡ true) × IsNoted v w

  entered-Walked :
      (k : Key) (w w' : WalkState) → Walked (entered k w) w' → IsClosed k w' → Walked w w'
  unfolding entered
  entered-Walked k w w' h at_k = record {
    kept = λ x m. h.kept x (ground arith);
    listed = h.listed;
    closed = λ u v m edge. elim (h.closed u v m edge) [
      | inr new ↦ inr new
      | inl old ↦ elim (Bool-cases (u == k)) [
        | inl self ↦ inr (at_k v (subst (λ j. Edge s j v) (==→eq u k self) edge))
        | inr other ↦ inl (ground arith)
      ]
    ];
    sound = h.sound;
  }

  -- With more fuel than unmarked ids, `walk` returns.
  walk_lem :
      (fuel : ℕ) (k : Key) (path : List Key) (w : WalkState)
      → From k
      → Fits path fuel w
      → Visits k (walk s root fuel k path w) w
  unfolding walk entered
  walk_lem zero k path w from (on_path, enough) = absurd (omega arith)
  walk_lem (suc fuel) k path w from (on_path, enough) = elim (Bool-cases (elem k path)) [
    | inl cycle ↦ (
      record w { cycle_edges = w.cycle_edges ++ (from_first k path ++ k ∷ []) ∷ [] },
      ground arith,
      Walked-refl w _ refl refl,
      on_path k cycle,
    )
    | inr fresh ↦ elim (Bool-cases (elem k w.visited)) [
      | inl old ↦ (w, ground arith, Walked-refl w w refl refl, old)
      | inr new ↦ elim (Result-cases (get_by_id s k)) [
        | inr (e, gone) ↦ (
          entered k w,
          ground arith,
          entered-Walked k w (entered k w) (Walked-refl (entered k w) (entered k w) refl refl)
              (λ v (o, found, _). cc),
          ground (arith, ==_refl k),
        )
        | inl (o, found) ↦
            let less =
              unseen-cons (keys_of s registry_types) k w.visited (elem-keys_of_found s k o found)
                new in
            let inside : Within (path ++ k ∷ []) (k ∷ w.visited) =
              λ x m. ground (arith, elem-append x path (k ∷ []), on_path x) in
            let (w', e, walked, all) =
              walk_all_lem (path ++ k ∷ []) fuel (λ j v. walk s root fuel j (path ++ k ∷ []) v)
                (λ j v f fits. walk_lem fuel j (path ++ k ∷ []) v f fits) o.dependencies
                (entered k w) (λ v m. follow k v from (o, found, m)) (inside, omega arith) in
            let shape : walk s root (suc fuel) k path w
                ≡ walk_all root (λ j v. walk s root fuel j (path ++ k ∷ []) v) o.dependencies
                    (entered k w) =
              ground arith in
            (
              w',
              shape ∙ e,
              entered-Walked k w w' walked (λ v (p, at_p, m).
                  let same : p ≡ o = cc in
                  all v
                    (subst (λ (q : RegistryObject). elem v (ids q.dependencies) ≡ true) same m)),
              walked.kept k (ground (arith, ==_refl k)),
            )
      ]
    ]
  ]

  start_From : Fits [] (enough_fuel s) start
  start_From = (λ x m. cc, omega (arith, unseen-nil (keys_of s registry_types)))

  -- The marks of the whole walk are closed under dependencies.
  marked_of_Reaches :
      (w : WalkState)
      → Walked start w
      → elem root w.visited ≡ true
      → (v : Key) → Reaches s root v
      → (elem v w.visited ≡ true) × IsNoted v w
  marked_of_Reaches w h at_root v (direct edge) = elim (h.closed root v at_root edge) [
    | inl none_before ↦ cc
    | inr new ↦ new
  ]
  marked_of_Reaches w h at_root v (further {u} r edge) =
      elim (h.closed u v (marked_of_Reaches w h at_root u r).0 edge) [
        | inl none_before ↦ cc
        | inr new ↦ new
      ]

elem-dedup :
    (seen ks : List Key) (x : Key)
    → (elem x (dedup seen ks) || elem x seen) ≡ (elem x ks || elem x seen)
unfolding dedup
elem-dedup seen [] x = refl
elem-dedup seen (k ∷ ks) x = elim (Bool-cases (elem k seen)) [
  | inl old ↦ elim (Bool-cases (x == k)) [
    | inl self ↦
        let e = ==→eq x k self in
        let again : elem x seen ≡ true = subst (λ j. elem j seen ≡ true) (sym e) old in ground arith
    | inr other ↦ ground (arith, elem-dedup seen ks x)
  ]
  | inr new ↦ ground (arith, elem-dedup (k ∷ seen) ks x)
]

-- From an object of the registry the walk returns, and the list has exactly the ids to which a chain
-- of declared dependencies leads, without the object itself; an id that is not registered is listed
-- where an object declares it.
pub transitive_dependencies-Reaches :
    (s : CanonicalRegistryStore) (id : Key) (o : RegistryObject)
    → get_by_id s id ≡ ok o
    → (r : TransitiveDependencies) × (transitive_dependencies s id ≡ some (ok r))
      × ((v : Key) → (elem v r.transitive_dependencies ≡ true) ↔ Reaches s id v × (v ≢ id))
unfolding transitive_dependencies
transitive_dependencies-Reaches s id o h =
    let (w, e, walked, at_root) =
      walk_lem s id (enough_fuel s) id [] start (inl refl) (start_From s id) in
    (
      report id w,
      ground arith,
      λ v.
          let same = elem-dedup [] w.order v in
          (
            λ m. elim (walked.sound v (ground arith)) [ inl none_before ↦ cc | inr r ↦ r ],
            λ (r, away). elim ((marked_of_Reaches s id w walked at_root v r).1) [
              | inl self ↦ absurd (away self)
              | inr m ↦ ground arith
            ],
          ),
    )

-- The walk ends whatever the store holds, cycles and missing objects included: an unknown id raises,
-- and any other gives a report.
pub transitive_dependencies_ends :
    (s : CanonicalRegistryStore) (id : Key)
    → ((e : RegistryError) × (transitive_dependencies s id ≡ some (err e))
        × (get_by_id s id ≡ err e))
      ⊎ ((r : TransitiveDependencies) × (transitive_dependencies s id ≡ some (ok r)))
transitive_dependencies_ends s id = elim (Result-cases (get_by_id s id)) [
  | inl (o, found) ↦ let (r, e, _) = transitive_dependencies-Reaches s id o found in inr (r, e)
  | inr (e, gone) ↦ inl (e, unfold transitive_dependencies in ground arith, gone)
]
