-- ===== src/Downward/Closed.antt =====
-- The downward search as a whole: what it leaves tainted is closed under def-use flow.
use linux_analysis.Prelude.{
  ℕ, zero, suc, ◌≡◌, ◌∙◌, sym, inl, inr, Bool, false, some, List, [], Map, contains, ◌⊆◌,
  Bool-cases, Option-cases, some_inj,
}
use linux_analysis.Llvm.{Ir, Value, Function, IsModule}
use linux_analysis.State.{Config, State}
use linux_analysis.Downward.{drain, scan_round, scanned_after, downward}
use linux_analysis.Downward.Ends.{round_stops, round_continues}
use linux_analysis.Downward.Exact.{start, IsPending, drain_exact}
use linux_analysis.Downward.Queues.{Queues, scan_round-Queues}

module _ (ir : Ir) where
  module _ (cfg : Config) (targets : Map (List Function)) where
    Queues-IsPending :
        (a b : State × Bool)
        → Queues a b
        → IsPending ir cfg targets a.0
        → IsPending ir cfg targets b.0
    Queues-IsPending a b q h = record {
      waiting = λ x m. elim (Bool-cases (contains x (a.0).worklist)) [
        | inl old ↦ q.tainted x (h.waiting x old)
        | inr new ↦ q.inside x m new
      ];
      followed = λ v m. elim (Bool-cases (contains v (a.0).tainted_values)) [
        | inr new ↦ inl (q.waiting v m new)
        | inl old ↦ elim (h.followed v old) [
          | inl wait ↦ inl (q.stacked v wait)
          | inr done ↦ inr (λ y hy. q.tainted y (done y hy))
        ]
      ];
    }

    -- Nothing waits, all that is tainted has had its uses followed, and no taint is lost.
    pub record Closes (s t : State) : Type 0 where
      pub empty : t.worklist ≡ []
      pub pending : IsPending ir cfg targets t
      pub kept : s.tainted_values ⊆ t.tainted_values

    -- When the downward search returns, its worklist is empty and what is tainted is closed.
    pub downward-Closes :
        (work rounds : ℕ) (scanned : List Value) (s t : State)
        → IsModule ir
        → IsPending ir cfg targets s
        → downward ir cfg targets work rounds scanned s ≡ some t
        → Closes s t
    unfolding downward
    downward-Closes work zero scanned s t is_module h e = cc
    downward-Closes work (suc rounds) scanned s t is_module h e =
        elim (Option-cases (drain ir cfg targets work (record s { changed = false }))) [
          | inl out ↦ cc (rw (out, downward) at e)
          | inr (u, run) ↦
              let (pending, empty, exact) =
                drain_exact ir cfg targets work (record s { changed = false }) u
                  (record { waiting = h.waiting; followed = h.followed }) run in
              let q = scan_round-Queues ir scanned u in
              let h' = Queues-IsPending (u, false) (scan_round ir scanned u, _) q pending in
              let kept : s.tainted_values ⊆ (scan_round ir scanned u).tainted_values =
                λ x m. q.tainted x ((exact x).1 (start m)) in
              elim (Bool-cases (scan_round ir scanned u).changed) [
                | inl more ↦
                    let rest =
                      downward-Closes work rounds (scanned_after ir scanned u)
                        (scan_round ir scanned u) t is_module h'
                        (sym (
                            round_continues ir is_module cfg targets work rounds scanned s u run
                              more)
                          ∙ e) in
                    record {
                      empty = rest.empty;
                      pending = rest.pending;
                      kept = λ x m. rest.kept x (kept x m);
                    }
                | inr stop ↦
                    let same : scan_round ir scanned u ≡ t = some_inj (
                      sym (round_stops ir is_module cfg targets work rounds scanned s u run stop)
                      ∙ e) in
                    rw (← same) (record {
                      empty = elim q.flag [ inl more ↦ cc | inr (_, f) ↦ f ∙ empty ];
                      pending = h';
                      kept = kept;
                    })
              ]
        ]
