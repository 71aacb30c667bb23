-- ===== src/Handlers/OpenPrStep.antt =====
-- `OpenPRStepHandler` of workflows/handlers.py.
use flow_speckit.Prelude.{
  ℕ, Bool, false, Option, none, some, [], ◌∷◌, ◌++◌, if◌then◌else◌, Text, codes, text_eq,
}
use flow_speckit.Json.{Json, null, number, object, text}
use flow_speckit.Errors.{Exception, Called, other}
use flow_speckit.Context.{StepInvocation, HandlerReply}
use flow_speckit.Handlers.{
  Library, fields_of, result_of, status_entry, get_field, payload_get, or_default, try_call,
}

-- git/provider.py: a pull request, and what the handler asks of a provider. The arguments come from
-- the payload unchecked.
pub record PullRequestInfo : Type 0 where
  pub pr_number : ℕ
  pub url : Text
  pub title : Text
  pub head_branch : Text
  pub base_branch : Text
  pub state : Text

pub record PrRequest : Type 0 where
  pub head : Json
  pub base : Json
  pub title : Json
  pub body_md : Json

abbrev pub GitProvider : Type 0
GitProvider = ℕ → PrRequest → Called PullRequestInfo

abbrev no_provider : HandlerReply
no_provider = result_of (
    (
      codes "error",
      text (
          codes
            "No Git provider registered. Install a provider plugin (e.g. flow-speckit-github) or register one via the flow_speckit.git_providers entry point group. The open_pr step requires a remote git provider."),
    )
    ∷ status_entry "unimplemented"
    ∷ [])

abbrev entry_or : Text → Json → Json → Json
entry_or name value (object fields) = or_default value (get_field name fields)
entry_or name value _ = value

-- The title, the body and the branches that the change names.
abbrev request_of_change : Json → PrRequest
request_of_change (object fields) =
    let change = object fields in
    record {
      title = entry_or (codes "title") (text (codes "Flow Speckit — Automated Changes")) change;
      body_md = entry_or (codes "body") (entry_or (codes "description") (text []) change) change;
      head = entry_or (codes "head_branch") (entry_or (codes "head") (text []) change) change;
      base =
          entry_or (codes "base_branch") (entry_or (codes "base") (text (codes "main")) change)
            change;
    }
request_of_change _ = record {
  title = text (codes "Flow Speckit — Automated Changes");
  body_md = text [];
  head = text [];
  base = text [];
}

-- `f"{body}\n\n{review_raw}".strip()`, where the review is a text.
abbrev with_review : Library → Json → PrRequest → PrRequest
with_review lib (text review) r = record r {
  body_md = text (lib.strip (lib.show r.body_md ++ codes "\n\n" ++ review));
}
with_review lib _ r = r

abbrev pub pr_result : PullRequestInfo → HandlerReply
pr_result info = result_of (
    status_entry "completed"
    ∷ (codes "pr_number", number info.pr_number)
    ∷ (codes "pr_url", text info.url)
    ∷ (codes "pr_title", text info.title)
    ∷ (codes "head_branch", text info.head_branch)
    ∷ (codes "base_branch", text info.base_branch)
    ∷ (codes "state", text info.state)
    ∷ [])

-- `except NotImplementedError`.
abbrev pub is_not_implemented : Exception → Bool
is_not_implemented (other name message) = text_eq name (codes "NotImplementedError")
is_not_implemented _ = false

abbrev pub pr_failure : Library → Exception → HandlerReply
pr_failure lib e =
    if is_not_implemented e
    then result_of (
        (
          codes "error",
          text (
              codes
                "open_pr is not implemented by the registered provider. The GitHub plugin (flow-speckit-github) is expected for this step kind."),
        )
        ∷ status_entry "unimplemented"
        ∷ [])
    else result_of (
        (codes "error", text (codes "Failed to open PR: " ++ lib.message e))
        ∷ status_entry "failed"
        ∷ [])

-- `OpenPRStepHandler.__call__`.
unfoldable pub open_pr_handler : Library → Option GitProvider → ℕ → StepInvocation → HandlerReply
open_pr_handler lib none n step = no_provider
open_pr_handler lib (some open_pr) n step =
    try_call
      (open_pr n (
        with_review lib (or_default null (payload_get (codes "review") step.payload)) (
          request_of_change
            (or_default (object (fields_of [])) (payload_get (codes "change") step.payload)))))
      (pr_failure lib) pr_result
