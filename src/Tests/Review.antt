-- ===== src/Tests/Review.antt =====
-- A subject of the learning queue through a few calls.
use ayran.Prelude.{◌≡◌, refl, true, false, none, some, List, [], ◌∷◌, map}
use ayran.Learning.Review.{
  record_review, submit_for_review, archive_expired, is_retrievable, call, calls, Subject, Call,
  captured, approve, taken, reviewing, submitting, archiving,
}
use ayran.Learning.Review.Quarantine.{is_quarantined, calls_quarantined}

abbrev waiting : Subject
waiting = record {
  outcome = some (record { stage = captured; created_at = 10; content_hash = "h1" });
  candidate = none;
  queue = [];
}

abbrev four_calls : List Call
four_calls = submitting 20 100 ∷ reviewing approve ∷ archiving 200 ∷ reviewing approve ∷ []

-- An approval takes an entry that has expired out of the archive.
approved_after_expiry : map (λ q. q.1.status) (calls four_calls waiting).queue ≡ taken ∷ []
unfolding calls call record_review submit_for_review archive_expired
approved_after_expiry = refl

calls_quarantined_example :
    (is_quarantined (calls four_calls waiting) ≡ true)
    × (is_retrievable (calls four_calls waiting) ≡ false)
unfolding is_quarantined
calls_quarantined_example = calls_quarantined four_calls waiting refl
