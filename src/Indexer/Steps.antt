-- ===== src/Indexer/Steps.antt =====
-- What every step of the queue keeps, in whatever order its waits end.
use feedo.Base.{
  ◌⊎◌, ℕ, zero, suc, ◌+◌, ◌<◌, ◌≡◌, ◌≤◌, ◌≢◌, refl, sym, subst, ◌∙◌, ap, List, [], ◌∷◌, ◌++◌,
  Option, none, some, true, false, inl, inr, length, get_elem?, set, arith, Bool-cases, All,
}
use feedo.Scan.{Codes}
use feedo.Indexer.{
  same_text, has, Site, md_log, Phase, queued, scraping, deploying, returned, Queue, put_task,
}
use feedo.Indexer.Hosts.{IsHost, IsHex}
use feedo.Indexer.Entries.{IsLogged}
use feedo.Indexer.Resume.{
  log_text, domains, last_number, IsNumbered, Distinct, log_text-snoc, same_text_refl, All-snoc,
}

-- The domain that a task is at work on.
abbrev pub held : Phase → Option Codes
held queued = none
held (scraping d) = some d
held (deploying d) = some d
held returned = none

abbrev pub Holds : Queue → ℕ → Codes → Type 0
Holds q i d = (phase : Phase) × (get_elem? q.tasks i ≡ some phase) × (held phase ≡ some d)

-- A host name of a site.
abbrev pub IsName : Codes → Type 0
IsName d = IsHost d × (0 < length d)

-- The log has the entries of `sites`, and nothing that a task is at work on.
pub record Inv (sites : List Site) (q : Queue) : Type 0 where
  pub logs : q.log ≡ log_text sites
  pub logged : All IsLogged sites
  pub distinct : Distinct (domains sites)
  pub numbered : IsNumbered 1 sites
  pub counted : last_number 0 sites ≤ q.successful_count
  pub known : All (λ d. has q.processed d ≡ true) (domains sites)
  pub busy_known : (i : ℕ) (d : Codes) → Holds q i d → has q.processed d ≡ true
  pub busy_named : (i : ℕ) (d : Codes) → Holds q i d → IsName d
  pub busy_apart : (i : ℕ) (d : Codes) → Holds q i d → All (λ e. e ≢ d) (domains sites)
  pub busy_alone : (i j : ℕ) (d : Codes) → Holds q i d → Holds q j d → i ≡ j

set_cases :
    {A : Type 0} (xs : List A) (i j : ℕ) (v a : A)
    → get_elem? (set xs i v) j ≡ some a
    → ((i ≡ j) × (a ≡ v)) ⊎ ((i ≢ j) × (get_elem? xs j ≡ some a))
set_cases [] i j v a e = cc
set_cases (x ∷ xs) zero zero v a e = inl (refl, cc)
set_cases (x ∷ xs) zero (suc j) v a e = inr (omega arith, e)
set_cases (x ∷ xs) (suc i) zero v a e = inr (omega arith, e)
set_cases (x ∷ xs) (suc i) (suc j) v a e = elim (set_cases xs i j v a e) [
  | inl (same, is) ↦ inl (ap suc same, is)
  | inr (other, is) ↦ inr ((λ p. other (omega arith)), is)
]

-- A task that goes on holds what it held, or nothing.
module _ (q : Queue) (i : ℕ) (old new : Phase) (at : get_elem? q.tasks i ≡ some old)
    (same : (d : Codes) → held new ≡ some d → held old ≡ some d) where
  held_before : (j : ℕ) (d : Codes) → Holds (put_task i new q) j d → Holds q j d
  held_before j d (phase, there, holds) = elim (set_cases q.tasks i j new phase there) [
    | inl (here, is) ↦ (
      old,
      subst (λ k. get_elem? q.tasks k ≡ some old) here at,
      same d (ap held (sym is) ∙ holds),
    )
    | inr (other, is) ↦ (phase, is, holds)
  ]

  pub put_task-Inv : (sites : List Site) → Inv sites q → Inv sites (put_task i new q)
  put_task-Inv sites inv = record {
    logs = inv.logs;
    logged = inv.logged;
    distinct = inv.distinct;
    numbered = inv.numbered;
    counted = inv.counted;
    known = inv.known;
    busy_known = λ j d h. inv.busy_known j d (held_before j d h);
    busy_named = λ j d h. inv.busy_named j d (held_before j d h);
    busy_apart = λ j d h. inv.busy_apart j d (held_before j d h);
    busy_alone = λ j k d h l. inv.busy_alone j k d (held_before j d h) (held_before k d l);
  }

has-snoc_old : (es : List Codes) (d e : Codes) → has es e ≡ true → has (es ++ d ∷ []) e ≡ true
unfolding has
has-snoc_old [] d e h = cc
has-snoc_old (x ∷ es) d e h = elim (Bool-cases (same_text x e)) [
  | inl same ↦ rw same refl
  | inr other ↦ rw (other, has-snoc_old es d e (rw other at h)) refl
]

has-snoc_self : (es : List Codes) (d : Codes) → has (es ++ d ∷ []) d ≡ true
unfolding has
has-snoc_self [] d = rw (same_text_refl d) refl
has-snoc_self (x ∷ es) d = elim (Bool-cases (same_text x d)) [
  | inl same ↦ rw same refl
  | inr other ↦ rw (other, has-snoc_self es d) refl
]

All-map₁ :
    {P Q : Codes → Type 0} (ds : List Codes) → ((d : Codes) → P d → Q d) → All P ds → All Q ds
All-map₁ [] f h = tt
All-map₁ (d ∷ ds) f (p, h) = (f d p, All-map₁ ds f h)

ne_of_has : (es : List Codes) (d e : Codes) → has es d ≡ false → has es e ≡ true → e ≢ d
ne_of_has es d e no_d has_e same = let h = subst (λ x. has es x ≡ true) same has_e in cc

-- A domain that is not known yet is taken by task `i`.
module _ (sites : List Site) (q : Queue) (i : ℕ) (d : Codes) (inv : Inv sites q)
    (unknown : has q.processed d ≡ false) (named : IsName d) where
  abbrev pub taken : Queue
  taken = record q { processed = q.processed ++ d ∷ []; tasks = set q.tasks i (scraping d) }

  holder : (j : ℕ) (e : Codes) → Holds taken j e → ((i ≡ j) × (d ≡ e)) ⊎ ((i ≢ j) × Holds q j e)
  holder j e (phase, there, holds) = elim (set_cases q.tasks i j (scraping d) phase there) [
    | inl (here, is) ↦ inl (here, let h = ap held (sym is) ∙ holds in cc)
    | inr (other, is) ↦ inr (other, (phase, is, holds))
  ]

  pub taken-Inv : Inv sites taken
  taken-Inv = record {
    logs = inv.logs;
    logged = inv.logged;
    distinct = inv.distinct;
    numbered = inv.numbered;
    counted = inv.counted;
    known = All-map₁ (domains sites) (λ e. has-snoc_old q.processed d e) inv.known;
    busy_known = λ j e h. elim (holder j e h) [
      | inl (here, same) ↦
          subst (λ x. has (q.processed ++ d ∷ []) x ≡ true) same (has-snoc_self q.processed d)
      | inr (other, old) ↦ has-snoc_old q.processed d e (inv.busy_known j e old)
    ];
    busy_named = λ j e h. elim (holder j e h) [
      | inl (here, same) ↦ subst IsName same named
      | inr (other, old) ↦ inv.busy_named j e old
    ];
    busy_apart = λ j e h. elim (holder j e h) [
      | inl (here, same) ↦
          subst (λ x. All (λ y. y ≢ x) (domains sites)) same
            (All-map₁ (domains sites) (λ y. ne_of_has q.processed d y unknown) inv.known)
      | inr (other, old) ↦ inv.busy_apart j e old
    ];
    busy_alone = λ j k e h l. elim (holder j e h) [
      | inl (here, same) ↦ elim (holder k e l) [
        | inl (there, _) ↦ sym here ∙ there
        | inr (other, old) ↦
            absurd (ne_of_has q.processed d e unknown (inv.busy_known k e old) (sym same))
      ]
      | inr (other, old) ↦ elim (holder k e l) [
        | inl (there, same) ↦
            absurd (ne_of_has q.processed d e unknown (inv.busy_known j e old) (sym same))
        | inr (_, old') ↦ inv.busy_alone j k e old old'
      ]
    ];
  }

Distinct-snoc :
    (ds : List Codes) (d : Codes) → Distinct ds → All (λ e. e ≢ d) ds → Distinct (ds ++ d ∷ [])
Distinct-snoc [] d h k = (tt, tt)
Distinct-snoc (e ∷ ds) d (fresh, h) (k, ks) =
    (All-snoc (λ x. x ≢ e) ds d fresh (λ p. k (sym p)), Distinct-snoc ds d h ks)

IsNumbered-snoc :
    (k : ℕ) (sites : List Site) (site : Site)
    → IsNumbered (suc k) sites
    → last_number k sites < site.number
    → IsNumbered (suc k) (sites ++ site ∷ [])
IsNumbered-snoc k [] site h e = (omega arith, tt)
IsNumbered-snoc k (s ∷ sites) site (is, h) e = (is, IsNumbered-snoc s.number sites site h e)

pub last_number-snoc :
    (k : ℕ) (sites : List Site) (site : Site) → last_number k (sites ++ site ∷ []) ≡ site.number
last_number-snoc k [] site = refl
last_number-snoc k (s ∷ sites) site = last_number-snoc s.number sites site

-- The count may go on without the log.
pub counted-Inv :
    (sites : List Site) (q : Queue)
    → Inv sites q
    → Inv sites (record q { successful_count = q.successful_count + 1 })
counted-Inv sites q inv = record {
  logs = inv.logs;
  logged = inv.logged;
  distinct = inv.distinct;
  numbered = inv.numbered;
  counted = let before = inv.counted in omega arith;
  known = inv.known;
  busy_known = inv.busy_known;
  busy_named = inv.busy_named;
  busy_apart = inv.busy_apart;
  busy_alone = inv.busy_alone;
}

pub domains-snoc :
    (sites : List Site) (site : Site)
    → domains (sites ++ site ∷ []) ≡ domains sites ++ site.domain ∷ []
domains-snoc [] site = refl
domains-snoc (s ∷ sites) site = ap (λ ds. s.domain ∷ ds) (domains-snoc sites site)

-- Task `i` writes the entry of the domain that it holds.
module _ (sites : List Site) (q : Queue) (i : ℕ) (d cid : Codes) (inv : Inv sites q)
    (mine : Holds q i d) (hex : IsHex cid) (filled : 0 < length cid) where
  abbrev site : Site
  site = record { number = q.successful_count + 1; domain = d; cid = cid }

  abbrev pub written : Queue
  written = record q {
    successful_count = q.successful_count + 1;
    log = q.log ++ md_log site [];
    tasks = set q.tasks i returned;
  }

  other_holder : (j : ℕ) (e : Codes) → Holds written j e → (i ≢ j) × Holds q j e
  other_holder j e (phase, there, holds) = elim (set_cases q.tasks i j returned phase there) [
    | inl (here, is) ↦ let h = ap held (sym is) ∙ holds in cc
    | inr (other, is) ↦ (other, (phase, is, holds))
  ]

  pub written-Inv : Inv (sites ++ site ∷ []) written
  written-Inv =
      let name = inv.busy_named i d mine in
      let all = domains-snoc sites site in
      record {
        logs = ap (λ t. t ++ md_log site []) inv.logs ∙ sym (log_text-snoc sites site);
        logged =
            All-snoc IsLogged sites site inv.logged
              (record { host = name.0; named = name.1; hex = hex; found = filled });
        distinct = rw all (Distinct-snoc (domains sites) d inv.distinct (inv.busy_apart i d mine));
        numbered =
            IsNumbered-snoc 0 sites site inv.numbered (let before = inv.counted in omega arith);
        counted = let last = last_number-snoc 0 sites site in omega arith;
        known = rw all (
            All-snoc (λ e. has q.processed e ≡ true) (domains sites) d inv.known
              (inv.busy_known i d mine));
        busy_known = λ j e h. inv.busy_known j e (other_holder j e h).1;
        busy_named = λ j e h. inv.busy_named j e (other_holder j e h).1;
        busy_apart = λ j e h.
            let (other, old) = other_holder j e h in
            rw all (
              All-snoc (λ y. y ≢ e) (domains sites) d (inv.busy_apart j e old)
                (λ same. other (inv.busy_alone i j d mine (subst (Holds q j) (sym same) old))));
        busy_alone =
            λ j k e h l. inv.busy_alone j k e (other_holder j e h).1 (other_holder k e l).1;
      }
