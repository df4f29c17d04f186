-- ===== src/Tests/Webhook.antt =====
-- Events of a repository with one connection. The message authentication code is the secret with the body.
use shipmates_oss.Prelude.{
  ◌≤◌, ◌≡◌, refl, true, none, some, List, [], ◌∷◌, ◌++◌, length, count, All, arith, replicate,
}
use shipmates_oss.Prelude.Bytes.{Bytes, bytes_eq, codes}
use shipmates_oss.Engine.Json.{Fields, number, text, object, end, field}
use shipmates_oss.Webhook.Limits.{
  is_recent, check_rate_limit, test_limiter, delete_limiter, Event, request, tests, deletes, start,
}
use shipmates_oss.Webhook.Limits.Window.{all_passed, IsOrdered, check_rate_limit-AtMost}
use shipmates_oss.Webhook.Context.{Row}
use shipmates_oss.Webhook.Route.{Request, queue, Router, Outcome}
use shipmates_oss.Webhook.Handler.{handle_webhook}
use shipmates_oss.Webhook.Handler.Authentic.{IsAuthentic, handle_webhook-IsAuthentic}
use shipmates_oss.Tests.Answers.{naturals}
use shipmates_oss.Tests.Shared.{plain_cipher}

abbrev one : Bytes
one = codes "1.2.3.4"

abbrev sixteen_at_once : List Event
sixteen_at_once =
    replicate 16 (request one 100)
    ++ (tests 90 one
        ∷ request (codes "5.6.7.8") 70000
        ∷ tests 70000 one
        ∷ deletes one
        ∷ request one 70100
        ∷ [])

-- A request that comes between the test and the deletion is not counted any longer: 16 pass at once.
abbrev in_between : List Event
in_between =
    request one 100
    ∷ tests 70000 one
    ∷ request one 70001
    ∷ deletes one
    ∷ replicate 15 (request one 70002)

sixteen_pass : count (is_recent 70003) (all_passed one in_between (start 50)) ≡ 16
unfolding check_rate_limit test_limiter delete_limiter
sixteen_pass = refl

one_refused : length (all_passed one (replicate 16 (request one 100)) (start 50)) ≡ 15
unfolding check_rate_limit
one_refused = refl

events-IsOrdered : IsOrdered 50 sixteen_at_once 70200 (start 50)
unfolding check_rate_limit test_limiter delete_limiter
events-IsOrdered = ground arith

check_rate_limit-AtMost_example :
    count (is_recent 70200) (all_passed one sixteen_at_once (start 50)) ≤ 15
check_rate_limit-AtMost_example =
    check_rate_limit-AtMost one sixteen_at_once 50 70200 events-IsOrdered

abbrev row : Row
row = record {
  connection = record {
    id = codes "c";
    user_id = codes "u";
    github_token = [];
    webhook_secret = some (codes "k");
    issue_label = none;
  };
  agent = some (record {
    id = codes "a";
    name = codes "Ada";
    role = codes "dev";
    personality = [];
    repos = none;
  });
  key = some (record {
    id = codes "i";
    provider = codes "p";
    api_key = [];
    base_url = none;
    model_id = none;
  });
}

abbrev labeled : Fields naturals
labeled = field (codes "action") (text (codes "labeled")) (
    field (codes "repository") (object (field (codes "full_name") (text (codes "o/r")) end)) (
      field (codes "issue")
        (object
          (field (codes "number") (number 7) (field (codes "title") (text (codes "bug")) end)))
        (field (codes "label") (object (field (codes "name") (text (codes "shipmates")) end)) end)))

abbrev hook : Request
hook = record {
  user_agent = codes "GitHub-Hookshot/1";
  forwarded_for = codes " 1.2.3.4, 9.9.9.9";
  remote_host = none;
  body = some (codes "{}");
  event = codes "issues";
  signature = codes "sha256=6b7b7d";
}

abbrev forged : Request
forged = record {
  user_agent = codes "GitHub-Hookshot/1";
  forwarded_for = codes "1.2.3.4";
  remote_host = none;
  body = some (codes "{}");
  event = codes "issues";
  signature = codes "sha256=00";
}

abbrev router : Router plain_cipher
router = record { limits = (start 50).limits; keys = []; forwarding = 0 }

abbrev handle : Request → Outcome plain_cipher
handle r =
    handle_webhook plain_cipher (codes "key") naturals (λ p. true) (λ s. some labeled)
      (λ secret body. secret ++ body) bytes_eq (λ repo. some (row ∷ [])) r 100 router

issue_seven :
    (handle hook).effects
    ≡ queue (record {
      user_id = codes "u";
      agent_id = codes "a";
      repo = codes "o/r";
      issue_number = 7;
      issue_title = codes "bug";
      issue_body = [];
      labels = [];
    })
      ∷ []
unfolding handle_webhook
issue_seven = refl

nothing_forged : (handle forged).effects ≡ []
unfolding handle_webhook
nothing_forged = refl

handle_webhook-IsAuthentic_example :
    All
      (IsAuthentic plain_cipher
        (codes "key")
        naturals
        (λ p. true)
        (λ s. some labeled)
        (λ secret body. secret ++ body)
        bytes_eq
        (λ repo. some (row ∷ []))
        hook
        100
        router)
      (handle hook).effects
handle_webhook-IsAuthentic_example =
    handle_webhook-IsAuthentic plain_cipher (codes "key") naturals (λ p. true) (λ s. some labeled)
      (λ secret body. secret ++ body) bytes_eq (λ repo. some (row ∷ [])) hook 100 router
