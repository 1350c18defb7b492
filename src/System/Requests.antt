-- ===== src/System/Requests.antt =====
-- HTTP requests as transactions of the system.
use mathlib.Core.Path.{subst}
use unith_task.Prelude.{ℕ, suc, ◌+◌, ◌≤◌, arith, length, ◌≡◌, refl, sym, List, [], ◌∷◌}
use unith_task.Config.{Settings}
use unith_task.Json.{Codec}
use unith_task.Runtime.{Runtime}
use unith_task.Db.{Database}
use unith_task.Server.App.{HttpRequest, Framework, RequestDraws, Site, handle, serve_requests}
use unith_task.Server.App.Writes.{Writes, nothing, creates, amends, removes, retries, handle-Writes}
use unith_task.System.{
  System, database_of, with_tables, retry, subscribe, amend, unsubscribe, Reach, start, later,
}

module _ (s : Settings) (codec : Codec) (rt : Runtime) where
  -- The number of transactions on a way.
  pub transactions : {v w : System} → Reach s codec rt v w → ℕ
  transactions start = 0
  transactions (later r h) = suc (transactions r)

  Reach-trans :
      {v w x : System} → Reach s codec rt v w → Reach s codec rt w x → Reach s codec rt v x
  Reach-trans h start = h
  Reach-trans h (later r st) = later (Reach-trans h r) st

  transactions-Reach-trans :
      {v w x : System} (h : Reach s codec rt v w) (k : Reach s codec rt w x)
      → transactions (Reach-trans h k) ≡ transactions h + transactions k
  unfolding transactions Reach-trans
  transactions-Reach-trans h start = omega arith
  transactions-Reach-trans h (later r st) = omega (arith, transactions-Reach-trans h r)

  -- Tables that the system reaches by at most `n` transactions.
  abbrev pub Within : ℕ → System → Database → Type 0
  Within n v db = (r : Reach s codec rt v (with_tables db v.held v)) × (transactions r ≤ n)

  Writes-Within : (v : System) {db : Database} → Writes (database_of v) db → Within 1 v db
  unfolding transactions
  Writes-Within v nothing = (start, omega arith)
  Writes-Within v (creates id secret now body) =
      (later start (subscribe id secret now body), omega arith)
  Writes-Within v (amends id body now) = (later start (amend id body now), omega arith)
  Writes-Within v (removes id now) = (later start (unsubscribe id now), omega arith)
  Writes-Within v (retries id now updated) = (later start (retry id now updated), omega arith)

  Within-start : (v : System) → Within 0 v (database_of v)
  unfolding transactions
  Within-start v = (start, omega arith)

  -- Whatever HTTP requests arrive one behind the other, with any bodies, paths and answers from
  -- outside, they take the tables of any state of the system to ones that it reaches by at most as
  -- many transactions as there are requests.
  pub serve_requests-Reach :
      (fw : Framework) (requests : List (HttpRequest × RequestDraws)) (w : Site) (v : System)
      → w.database ≡ database_of v
      → Within (length requests) v (serve_requests s codec fw requests w).database
  unfolding serve_requests
  serve_requests-Reach fw [] w v e = subst (Within 0 v) (sym e) (Within-start v)
  serve_requests-Reach fw ((req, d) ∷ rest) w v e =
      let w' = (handle s codec fw req d w).1 in
      let (one, le) =
        Writes-Within v
          (subst (λ db. Writes db w'.database) e (handle-Writes s codec fw req d w)) in
      let (more, le') = serve_requests-Reach fw rest w' (with_tables w'.database v.held v) refl in
      (Reach-trans one more, omega (arith, transactions-Reach-trans one more, le, le'))
