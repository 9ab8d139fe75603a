-- ===== src/Indexer/Deployed.antt =====
-- scripts/indexer/index.js: what a deployment that succeeds leaves for a restart.
use feedo.Base.{
  ℕ, ◌+◌, ◌≡◌, refl, sym, ap, ◌∙◌, Bool, true, List, [], ◌∷◌, ◌++◌, Option, some, false, get_elem?,
  All,
}
use feedo.Scan.{Codes, match_first}
use feedo.Indexer.{
  Site, cid_pattern, deploying, Queue, executed, end_site, deployment_failed, step, Reach, resumed,
  load_checkpoints,
}
use feedo.Indexer.Hosts.{IsHost}
use feedo.Indexer.Entries.{IsLogged}
use feedo.Indexer.Inputs.{match_first-IsCid}
use feedo.Indexer.Resume.{
  log_text, domains, last_number, IsNumbered, Distinct, load_checkpoints-log_text,
}
use feedo.Indexer.Steps.{Inv, written, written-Inv, domains-snoc, last_number-snoc}
use feedo.Indexer.Runs.{Reach-Inv, resumed-Inv}

-- What a restart finds of a queue.
restart_of_Inv :
    (sites : List Site) (q : Queue)
    → Inv sites q
    → load_checkpoints q.log [] 0 ≡ (domains sites, last_number 0 sites)
restart_of_Inv sites q inv =
    ap (λ t. load_checkpoints t [] 0) inv.logs
    ∙ load_checkpoints-log_text sites inv.logged inv.distinct inv.numbered

-- What a restart finds behind a deployment: the domain, if the log could be written.
unfoldable pub with_deployed : Bool → Codes → ℕ → List Codes × ℕ → List Codes × ℕ
with_deployed true d count (found, number) = (found ++ d ∷ [], count)
with_deployed false d count before = before

module _ (hostname : Codes → Option Codes) (urls : List (Option Codes))
    (host_ok : (u h : Codes) → hostname u ≡ some h → IsHost h) (old : List Site)
    (protocols : List (Option Codes)) (logged : All IsLogged old)
    (distinct : Distinct (domains old)) (numbered : IsNumbered 1 old) where
  -- If the log holds the entries of sites that are well formed, distinct and numbered upwards from
  -- 1 or more, and a host name has only letters, digits, dots and dashes, then at any point of a
  -- run, when the deployment of a site succeeds and its output has a content id, the count of the
  -- run goes up by one; if the log can be written, a restart then finds the domain of the site
  -- behind those that it would have found before, and the count of the run; if it cannot, a restart
  -- finds only what it would have found before.
  pub step-load_checkpoints :
      {q : Queue} (i : ℕ) (d cid : Codes) (output : Codes × Codes) (writable : Bool)
      → Reach hostname urls (resumed (log_text old) protocols) q
      → get_elem? q.tasks i ≡ some (deploying d)
      → deployment_failed output ≡ false
      → match_first cid_pattern output.0 ≡ some cid
      → let after = step hostname urls (executed i (some output) writable) q in
        (after.successful_count ≡ q.successful_count + 1)
        × (load_checkpoints after.log [] 0
            ≡ with_deployed writable d after.successful_count (load_checkpoints q.log [] 0))
  unfolding step end_site with_deployed
  step-load_checkpoints {q} i d cid output false r at fine found =
      rw (at, step, fine, found) (refl, refl)
  step-load_checkpoints {q} i d cid output true r at fine found =
      let (sites, inv) =
        Reach-Inv hostname urls host_ok
          (old, resumed-Inv hostname urls host_ok old protocols logged distinct numbered) r in
      let hex = match_first-IsCid output.0 cid found in
      let after = written-Inv sites q i d cid inv (deploying d, at, refl) hex.0 hex.1 in
      let restart = restart_of_Inv sites q inv in
      let site : Site = record { number = q.successful_count + 1; domain = d; cid = cid } in
      rw (at, step, fine, found)
        (
          refl,
          restart_of_Inv _ (written sites q i d cid inv (deploying d, at, refl) hex.0 hex.1) after
              ∙ ap (λ ds. (ds, last_number 0 (sites ++ site ∷ []))) (domains-snoc sites site)
              ∙ ap (λ n. (domains sites ++ d ∷ [], n)) (last_number-snoc 0 sites site)
              ∙ sym (ap (with_deployed true d (q.successful_count + 1)) restart),
        )
