-- ===== src/Lib.antt =====
-- Verification of the review orchestrator of dohwa-hermes-stack.
--
-- The orchestrator receives GitHub webhooks, keeps one review job for each head of a pull request,
-- and lets a job be reviewed, published, approved by a label and merged. Its state is an SQLite
-- database behind one class, `StateStore` of reviewer/state.py; reviewer/models.py has the states of
-- a job and their transitions, and reviewer/approval.py has the label timeline, the time to live of
-- an approval and the checks of values. A review that a model writes passes
-- reviewer/review_schema.py, and reviewer/decision.py says whether checks and human reviews let a
-- pull request be merged. The orchestrator and the webhook server call these modules.
--
-- Files and code:
--   Base           equality tests, lists, Python exceptions as values (`Result`), statements of
--                  SQLite over lists of rows (`find_row`, `update_rows`, `count_rows`, `first_row`,
--                  `order_by`), JSON-like Python values
--   Models         reviewer/models.py: `ReviewState`, `ALLOWED_TRANSITIONS`, `validate_transition`,
--                  `WebhookEvent`, `ReviewJob`
--   Approval       reviewer/approval.py: Checks (`_positive_int`, `_ascii_token`, ...), Labels
--                  (`fold_authoritative_label_prefix`), Ttl (`evaluate_approval_ttl`), Status
--                  (`validate_approval_transition`), Context (`ReviewContextContent`)
--   Store.Tables   the tables of `_create_v1_schema` and its successors, a row as a record
--   Store.Invalidate  `_invalidate_job_attempts`, `_invalidate_open_approvals`,
--                  `_invalidate_if_job_left_review_context`, `_obsolete_other_heads`
--   Store.Ingest   `ingest`, `archive_webhook_delivery`; Targets has `_initial_state`,
--                  `_event_may_transition` and what becomes of the row of the job
--   Store.Jobs     `transition`, `claim_next`, `recover_after_restart`, `bind_job_repository_id`
--   Store.Attempts  `mark_review_attempt_publish_maybe_sent` to `invalidate_review_attempt`; Prepare
--                  has `prepare_review_attempt` and `_validate_review_job_context`
--   Store.Publications  `begin_review_publication`, `confirm_review_publication`
--   Store.Outbox   `claim_next_approval_outbox`, `complete_approval_outbox`, `retry_approval_outbox`
--   Store.Reconciliations  `claim_next_approval_reconciliation`, `retry_approval_reconciliation`
--   Store.Labels   `_apply_github_label_approval` in parts: Timeline reads the label timeline, Judge
--                  finds the reason to reject or the review that is approved, Accept writes the events
--                  and the approval, Record the evidence and the rejection, Apply puts them together;
--                  Expire (`_expire_github_label_approvals`), Queue (`enqueue_approval_reconciliation`,
--                  `complete_approval_reconciliation`, `reject_timed_out_approval_reconciliation`)
--   Store.Consistent  the invariant: keys, CHECK constraints and unique indexes of the schema, and
--                  that a job which has left its review has no open attempt
--   Store.Reach    the histories of the store as sequences of successful calls
--   Decision       reviewer/decision.py: Ci (`ci_satisfies_policy`), Reviews
--                  (`has_blocking_human_review`)
--   Schema         reviewer/review_schema.py: `ReviewResult.from_dict`, `Finding.from_dict`; Accepted
--                  has what an accepted review satisfies
--   Merge          reviewer/merge_descriptor.py: Checks (`_require_sha`, ...), `MergeDescriptor` with
--                  `__post_init__`, `from_mapping` and `to_mapping`, Build (`build`), Commit
--                  (`_raw_commit_bytes`, `_git_object_oid`), Canonical (`canonical_bytes`,
--                  `from_canonical_bytes`), Inputs (`CIRequestInputs`)
--   Store.Contexts  `store_review_context`, `get_review_context`
--   Store.Descriptors  `store_merge_descriptor`, `get_merge_descriptor`
--   Store.Requests  `create_ci_request`, `get_ci_request`
--   Examples       runs on concrete inputs
--
-- Conventions. A method that writes is a function from the store to `Result` of the store: an
-- exception rolls the transaction back, so it leaves no store. Times are arguments and natural
-- numbers: microseconds for jobs, attempts and wall clocks, nanoseconds for monotonic clocks,
-- seconds in the outbox; the texts that the program writes have one layout, in which the order of
-- texts is the order of times. A fresh UUID is an argument. An exception is its class and the fixed
-- part of its message. Python integers do not overflow; the bound 2^63 - 1 is written out where the
-- code checks it, and where a column of SQLite refuses a larger integer. The program's own clock
-- stays below `datetime.max`; the evaluation of a time to live, which adds to times of GitHub, counts
-- from `datetime.min` and raises beyond `datetime.max`, as Python does. Every loop is structural
-- recursion over a list; only the decimal digits of a number n recur on fuel, n + 1 of it, of which
-- each digit takes one while the number falls to its tenth.
--
-- Parameters: `is_github_timestamp` is the round trip of a text through `strptime` and `strftime`,
-- `parse` is `email.utils.parsedate_to_datetime`; `render`, `casefold` and `upper` are `str` of a
-- value that is not a text, `str.casefold` and `str.upper`; `strip`, `lower` and `to_int` are
-- `str.strip`, `str.lower` and `int`. `Runtime` of Store.Labels.Accept has `strptime`, `isoformat` and
-- `strftime` of times and the SHA-256 of an attestation. `sha1_hex` and `sha256_hex` are digests of
-- hashlib; `dumps` and `loads` write and read JSON in UTF-8; `reformat` is `strptime` and then
-- `strftime`, none where it raises.
--
-- Not modelled: threads (a lock and a transaction make each method atomic), the triggers that
-- forbid direct writes, the markers of published reviews, and all network, process and container
-- code.
pub mod Base
pub mod Models
pub mod Approval
pub mod Store
pub mod Decision
pub mod Schema
pub mod Merge
pub mod Examples
