-- ===== src/Gitlab/PullRequests/Polls.antt =====
-- How long `Merge` waits for a merge request.
use go_git_providers.Prelude.{ℕ, zero, suc, ◌+◌, ◌≡◌, refl, ap, ◌∙◌, true, false, Str, arith}
use go_git_providers.Errors.{Err}
use go_git_providers.Exec.{ok, err, got, ◌>>◌}
use go_git_providers.Gitprovider.Contents.{MergeMethod}
use go_git_providers.Github.Repository.{Ref}
use go_git_providers.Gitlab.Api.{MergeRequest}
use go_git_providers.Gitlab.Context.{ClientContext}
use go_git_providers.Gitlab.PullRequests.{
  poll, merge, is_pending, accept, accept_options, unavailable,
  wait_for_merge_request_to_be_mergeable,
}
use go_git_providers.Gitlab.Util.{get_repo_path}

module _ {W : Type 0} (c : ClientContext W) (ref : Ref) (number : ℕ) where
  -- From the state `w`, `n` polls find the merge request pending, or fail, and lead to `v`.
  pub data Pending : ℕ → W → W → Type 0 where
    here : {w : W} → Pending 0 w w
    checking :
        {n : ℕ} {w u v : W} (m : MergeRequest)
        → c.api.merge_requests_get (get_repo_path ref) number w ≡ (ok m, u)
        → is_pending (got m) ≡ true
        → Pending n u v
        → Pending (suc n) w v
    failing :
        {n : ℕ} {w u v : W} (e : Err)
        → c.api.merge_requests_get (get_repo_path ref) number w ≡ (err e, u)
        → Pending n u v
        → Pending (suc n) w v

  poll-Pending :
      (rounds n left : ℕ) {w v : W}
      → Pending n w v
      → rounds ≡ n + left
      → poll c ref number rounds w ≡ poll c ref number left v
  unfolding poll
  poll-Pending rounds zero left {w = w} here h =
      ap (λ r. poll c ref number r w) {x = rounds} {y = left} (omega arith)
  poll-Pending zero (suc n) left (checking m e p r) h = absurd (omega arith)
  poll-Pending zero (suc n) left (failing f e r) h = absurd (omega arith)
  poll-Pending (suc rounds) (suc n) left (checking m e p r) h =
      rw e (rw p (poll-Pending rounds n left r (omega arith)))
  poll-Pending (suc rounds) (suc n) left (failing f e r) h =
      rw e (poll-Pending rounds n left r (omega arith))

  poll-ready :
      (left : ℕ) {v u : W} (m : MergeRequest)
      → c.api.merge_requests_get (get_repo_path ref) number v ≡ (ok m, u)
      → is_pending (got m) ≡ false
      → poll c ref number (suc left) v ≡ (ok tt, u)
  unfolding poll
  poll-ready left m g p = rw g (rw p refl)

  poll-over : (v : W) → poll c ref number 0 v ≡ (err unavailable, v)
  unfolding poll
  poll-over v = refl

  merge-poll :
      (method : MergeMethod) (message : Str) (w : W)
      → merge c ref number method message w
        ≡ (poll c ref number 10 >> accept c ref number (accept_options method message)) w
  unfolding merge wait_for_merge_request_to_be_mergeable
  merge-poll method message w = refl

  -- If the merge request is no longer pending at one of the first ten polls, however many found it
  -- pending or failed before, `Merge` goes on to accept it in the state that the polls led to. If
  -- ten polls find it pending or fail, `Merge` fails and accepts nothing.
  pub merge-Pending :
      (method : MergeMethod) (message : Str) (n : ℕ) (w v : W)
      → Pending n w v
      → ((left : ℕ) (m : MergeRequest) (u : W)
          → n + suc left ≡ 10
          → c.api.merge_requests_get (get_repo_path ref) number v ≡ (ok m, u)
          → is_pending (got m) ≡ false
          → merge c ref number method message w
            ≡ accept c ref number (accept_options method message) u)
        × (n ≡ 10 → merge c ref number method message w ≡ (err unavailable, v))
  merge-Pending method message n w v r = (
    λ left m u e g p.
        merge-poll method message w
        ∙ rw (poll-Pending 10 n (suc left) r (omega arith)) (rw (poll-ready left m g p) refl),
    λ e.
        merge-poll method message w
        ∙ rw (poll-Pending 10 n 0 r (omega arith)) (rw (poll-over v) refl),
  )
