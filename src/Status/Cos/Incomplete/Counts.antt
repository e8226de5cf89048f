-- ===== src/Status/Cos/Incomplete/Counts.antt =====
-- The counts and the status of an incomplete phase, against counts of its objects.
use orb_operator.Base.{
  ℕ, ◌+◌, ◌<◌, ◌≡◌, refl, Bool, true, false, ◌||◌, none, List, [], ◌∷◌, ◌∙◌, count_if, arith,
  if◌then◌else◌, nat_eq,
}
use native.Mathlib.Nat.{zero-add}
use orb_operator.Base.Int.{i64}
use orb_operator.Api.{Phase, PhaseStatus, pending, reconciling, waiting_for_assertions, zero_counts}
use orb_operator.Boxcutter.{ObjectResult, PhaseResult}
use orb_operator.Status.Cos.Mapping.{total_of}
use orb_operator.Status.Cos.Incomplete.{
  Tally, is_present, is_synced, inc, tally_object, tally_objects, incomplete_phase,
}

abbrev i64_mod : ℕ
i64_mod = 18446744073709551616

abbrev pub is_object_complete : ObjectResult → Bool
is_object_complete obj = obj.is_complete

abbrev pub any_paused : List ObjectResult → Bool
any_paused [] = false
any_paused (obj ∷ objs) = obj.is_paused || any_paused objs

inc_lem : (b : Bool) (n k : ℕ) → i64 (inc b n + k) ≡ i64 (n + ((if b then 1 else 0) + k))
inc_lem true n k = omega arith
inc_lem false n k = omega arith

inc-lt : (b : Bool) (n : ℕ) → n < i64_mod → inc b n < i64_mod
inc-lt true n h = omega arith
inc-lt false n h = h

-- The counts are `int64` patterns.
record IsSmall (t : Tally) : Type 0 where
  present : t.counts.present < i64_mod
  synced : t.counts.synced < i64_mod
  available : t.counts.available < i64_mod

tally_object-IsSmall : (obj : ObjectResult) (t : Tally) → IsSmall t → IsSmall (tally_object obj t)
unfolding tally_object
tally_object-IsSmall obj t h = record {
  present = inc-lt (is_present obj) _ h.present;
  synced = inc-lt (is_synced obj) _ h.synced;
  available = inc-lt obj.is_complete _ h.available;
}

-- The loop adds, modulo 2^64, the numbers of objects that pass each test.
record IsTallied (objs : List ObjectResult) (t u : Tally) : Type 0 where
  total : u.counts.total ≡ t.counts.total
  present : u.counts.present ≡ i64 (t.counts.present + count_if is_present objs)
  synced : u.counts.synced ≡ i64 (t.counts.synced + count_if is_synced objs)
  available : u.counts.available ≡ i64 (t.counts.available + count_if is_object_complete objs)
  paused : u.paused ≡ (t.paused || any_paused objs)

or_assoc : (a b c : Bool) → ((a || b) || c) ≡ (a || (b || c))
or_assoc true b c = refl
or_assoc false b c = refl

or_false : (a : Bool) → a ≡ (a || false)
or_false true = refl
or_false false = refl

tally_objects-IsTallied :
    (objs : List ObjectResult) (t : Tally) → IsSmall t → IsTallied objs t (tally_objects objs t)
unfolding tally_objects
tally_objects-IsTallied [] t h = record {
  total = refl;
  present = omega (arith, h.present);
  synced = omega (arith, h.synced);
  available = omega (arith, h.available);
  paused = or_false t.paused;
}
tally_objects-IsTallied (obj ∷ objs) t h =
    let ih = tally_objects-IsTallied objs (tally_object obj t) (tally_object-IsSmall obj t h) in
    record {
      total = ih.total;
      present = ih.present ∙ inc_lem (is_present obj) t.counts.present _;
      synced = ih.synced ∙ inc_lem (is_synced obj) t.counts.synced _;
      available = ih.available ∙ inc_lem obj.is_complete t.counts.available _;
      paused = ih.paused ∙ or_assoc t.paused obj.is_paused (any_paused objs);
    }

-- The status of an incomplete phase that passed validation, from its objects alone.
abbrev pub status_of : Phase → List ObjectResult → PhaseStatus
status_of sp objs =
    if any_paused objs
    then pending
    else if nat_eq (i64 (count_if is_synced objs)) (total_of sp)
    then waiting_for_assertions
    else reconciling

-- An incomplete phase with no validation error counts its objects as present, synced and available
-- by the tests on each object; its total is the number of objects in the spec. It is Pending if an
-- object is paused, else WaitingForAssertions if as many objects are synced as the spec has, else
-- Reconciling.
pub incomplete_phase_lem :
    (sp : Phase) (pr : PhaseResult)
    → pr.validation_error ≡ none
    → ((incomplete_phase sp pr).object_counts ≡ record {
      total = total_of sp;
      present = i64 (count_if is_present pr.objects);
      synced = i64 (count_if is_synced pr.objects);
      available = i64 (count_if is_object_complete pr.objects);
    })
      × ((incomplete_phase sp pr).status ≡ status_of sp pr.objects)
unfolding incomplete_phase
incomplete_phase_lem sp pr e =
    let start : Tally = record {
      counts = record zero_counts { total = total_of sp };
      paused = false;
      details = [];
    } in
    let h = tally_objects-IsTallied pr.objects start (omega arith) in
    rw e (ground (arith, h), rw (h.paused, h.synced, h.total) (simp zero-add))
