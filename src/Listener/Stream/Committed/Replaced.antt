-- ===== src/Listener/Stream/Committed/Replaced.antt =====
-- A state that replaces the live one without a gap stands at the same block.
use order_book_server.Base.{
  ℕ, ◌≡◌, sym, ap, subst, ◌∙◌, inl, inr, arith, Bool, true, false, Option, none, some, List, nat_eq,
  Option-cases, ◌>>=◌,
}
use order_book_server.Base.Result.{Result, ok, err}
use order_book_server.Queue.{QueueApi}
use order_book_server.OrderBook.Types.{Text}
use order_book_server.OrderBook.{Snapshot}
use order_book_server.Orders.{InnerL4Order, l4_order}
use order_book_server.Market.State.{OrderBookState, ApplyError, state_from_snapshot}
use order_book_server.Market.Consistency.{SnapshotConsistency, equal, empty_books_added, Divergence}
use order_book_server.Listener.{Listener, Pair, gap, not_applied, Received, send}
use order_book_server.Listener.Recovery.{publish, l2_snapshots, apply_all, increased}
use order_book_server.Listener.Reconcile.{commit, replace, after_validation}
use order_book_server.Listener.Fetch.{Attempt}
use order_book_server.Listener.Stream.{position, SameAs, Chain, IsSound, send-IsSound}
use order_book_server.Listener.Stream.Views.{publish-IsSound}
use order_book_server.Listener.Stream.Recovered.{ComesTo, apply_all-ComesTo}

-- A result, also an error, that leaves the listener sound with the attempt over.
abbrev pub Settled : {A : Type 0} (api : QueueApi ℕ (InnerL4Order A)) → ℕ → Received api → Type 0
Settled api n r = IsSound api n none r.0

module _ {A : Type 0} (log10_floor : ℕ → ℕ) (parse : Text → Option ℕ)
    (api : QueueApi ℕ (InnerL4Order A)) (n : ℕ) where
  -- With no attempt under way nothing is said of the cache.
  pub let_go :
      (a : Option (Attempt api)) (l : Listener api) → IsSound api n a l → IsSound api n none l
  let_go a l s = record {
    sends = s.sends;
    contiguous = s.contiguous;
    stands = s.stands;
    bounded = s.bounded;
    dated = s.dated;
    phase = tt;
  }

  -- The listener is sound and stands at the height `g`.
  pub record StoodAt (g : ℕ) (l : Listener api) : Type 0 where
    pub sound : IsSound api n none l
    pub at : SameAs (position none l.sent) g

  commit-Settled :
      (l : Listener api) (g : ℕ) (empty_additions : Bool)
      (applied : OrderBookState api × Result ApplyError (Unit {0})) (r : Received api)
      → StoodAt g l
      → ComesTo parse api g applied
      → commit log10_floor parse api l empty_additions applied ≡ some r
      → Settled api n r
  commit-Settled l g empty_additions (b, err e) r s comes ran =
      let same : (l, err (not_applied e)) ≡ r = cc in subst (Settled api n) same s.sound
  commit-Settled l g false (b, ok _) r s comes ran =
      let l' : Listener api = record l {
        order_book_state = some b;
        stats = record (l.stats) { snapshot_reloads = increased l.stats.snapshot_reloads };
      } in
      let same : (send api l' gap, ok tt) ≡ r = cc in
      subst (Settled api n) same (
        send-IsSound api n none l' gap s.sound.sends s.sound.contiguous tt tt s.sound.bounded tt
          s.sound.dated)
  commit-Settled l g true (b, ok _) r s comes ran =
      let l' : Listener api = record l {
        order_book_state = some b;
        stats = record (l.stats) { empty_book_refreshes = increased l.stats.empty_book_refreshes };
      } in
      let sound : IsSound api n none l' = record {
        sends = s.sound.sends;
        contiguous = s.sound.contiguous;
        stands = subst (SameAs (position none l.sent)) comes s.at;
        bounded = s.sound.bounded;
        dated = s.sound.dated;
        phase = tt;
      } in
      elim (Option-cases (l2_snapshots api log10_floor l' true)) [
        | inl panics ↦ absurd (ground arith)
        | inr (viewed, gives) ↦
            let same : (publish api viewed, ok tt) ≡ r = ground arith in
            subst (Settled api n) same
              (publish-IsSound log10_floor api n none l' true viewed sound gives)
      ]

  replace-Settled :
      (l : Listener api) (g : ℕ) (empty_additions : Bool)
      (expected : List (Text × Snapshot (InnerL4Order A))) (height time : ℕ)
      (cache : List (Pair api)) (r : Received api)
      → StoodAt g l
      → Chain api height cache g
      → replace log10_floor parse api l empty_additions expected height time cache ≡ some r
      → Settled api n r
  unfolding state_from_snapshot
  replace-Settled l g empty_additions expected height time cache r s chain ran =
      let fresh = state_from_snapshot api expected height time true l.ignore_spot in
      elim (Option-cases (apply_all api parse fresh cache)) [
        | inl panics ↦ absurd (ground arith)
        | inr (applied, gives) ↦
            commit-Settled l g empty_additions applied r s
              (apply_all-ComesTo parse api fresh g cache applied chain gives)
              (sym (
                  ap
                    (λ (t : Option (OrderBookState api × Result ApplyError (Unit {0}))).
                      t >>= λ r. commit log10_floor parse api l empty_additions r)
                    gives)
                ∙ ran)
      ]

  pub after_validation-Settled :
      (l : Listener api) (g : ℕ) (state : OrderBookState api)
      (expected : List (Text × Snapshot (InnerL4Order A))) (height : ℕ) (cache : List (Pair api))
      (validated : Result Divergence SnapshotConsistency) (r : Received api)
      → StoodAt g l
      → Chain api height cache g
      → after_validation log10_floor parse api l state expected height cache validated ≡ some r
      → Settled api n r
  after_validation-Settled l g state expected height cache (ok equal) r s chain ran =
      let same : (l, ok tt) ≡ r = cc in subst (Settled api n) same s.sound
  after_validation-Settled l g state expected height cache (ok empty_books_added) r s chain ran =
      replace-Settled l g true expected height state.time cache r s chain ran
  after_validation-Settled l g state expected height cache (err e) r s chain ran =
      replace-Settled
        (record l { stats = record (l.stats) { last_snapshot_reload_reason = some e } }) g false
        expected height 0 cache r
        (record {
          sound = record {
            sends = s.sound.sends;
            contiguous = s.sound.contiguous;
            stands = s.sound.stands;
            bounded = s.sound.bounded;
            dated = s.sound.dated;
            phase = tt;
          };
          at = s.at;
        })
        chain ran
