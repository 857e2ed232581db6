-- ===== src/Recording/Tables.antt =====
-- The table of active recordings and the recording objects.
use chrome_live.Base.{
  ℕ, ◌⊎◌, ◌+◌, ◌≤◌, ◌≡◌, String, some, arith, nat_key, string_key, ◌==◌, Bool-cases, Option-cases,
  inl, inr, some-inj,
}
use mathlib.Core.Path.{subst}
use mathlib.Core.Option
use chrome_live.Dict.{Dict, lookup, erase, modify}
use chrome_live.Dict.Laws.{lookup-insert, lookup-erase, lookup-modify}
use chrome_live.Recording.{ActiveRecording, Recorder, idle, list_recording}
use chrome_live.Recording.Frames.{IsConsistent}

-- A session's entry is a recording of that session, and every recording is consistent.
pub record IsRecorder (r : Recorder) : Type 0 where
  pub created_le :
      (n : ℕ) (recording : ActiveRecording) → lookup n r.objects ≡ some recording → n ≤ r.created
  pub consistent :
      (n : ℕ) (recording : ActiveRecording)
      → lookup n r.objects ≡ some recording
      → IsConsistent recording
  pub own :
      (sid : String) (n : ℕ)
      → lookup sid r.active ≡ some n
      → Option.map (λ x. x.meta.session_id) (lookup n r.objects) ≡ some sid

pub idle-IsRecorder : IsRecorder idle
unfolding lookup
idle-IsRecorder = record {
  created_le = λ n recording p. cc;
  consistent = λ n recording p. cc;
  own = λ sid n p. cc;
}

-- the same recordings, with entries that stay or go
pub shrunk-IsRecorder :
    (r r' : Recorder)
    → r'.objects ≡ r.objects
    → r'.created ≡ r.created
    → ((sid : String) (n : ℕ) → lookup sid r'.active ≡ some n → lookup sid r.active ≡ some n)
    → IsRecorder r
    → IsRecorder r'
shrunk-IsRecorder r r' objects created active h = record {
  created_le = λ n recording p. rw created (h.created_le n recording (rw objects at p));
  consistent = λ n recording p. h.consistent n recording (rw objects at p);
  own = λ sid n p. rw objects (h.own sid n (active sid n p));
}

pub erased :
    (k sid : String) (n : ℕ) (d : Dict String ℕ)
    → lookup sid (erase k d) ≡ some n
    → lookup sid d ≡ some n
erased k sid n d p = ground (arith, lookup-erase k sid d, p)

-- what is found after a change was found before it, or is the change of what was
modified :
    (k n : ℕ) (f : ActiveRecording → ActiveRecording) (d : Dict ℕ ActiveRecording)
    (y : ActiveRecording)
    → lookup n (modify k f d) ≡ some y
    → (lookup n d ≡ some y) ⊎ ((x : ActiveRecording) × (lookup n d ≡ some x) × (f x ≡ y))
modified k n f d y p = elim (Bool-cases (k == n)) [
  | inl here ↦ elim (Option-cases (lookup n d)) [
    | inl absent ↦ cc (lookup-modify k n f d, here, absent, p)
    | inr (x, found) ↦
        inr (x, found, some-inj (ground (arith, lookup-modify k n f d, here, found, p)))
  ]
  | inr there ↦ inl (ground (arith, lookup-modify k n f d, there, p))
]

-- a change of one recording that keeps its session
pub changed-IsRecorder :
    (k : ℕ) (f : ActiveRecording → ActiveRecording) (r : Recorder)
    → ((x : ActiveRecording) → IsConsistent x → IsConsistent (f x))
    → ((x : ActiveRecording) → (f x).meta.session_id ≡ x.meta.session_id)
    → IsRecorder r
    → IsRecorder (record r { objects = modify k f r.objects })
changed-IsRecorder k f r keeps same h = record {
  created_le = λ n recording p. elim (modified k n f r.objects recording p) [
    | inl was ↦ h.created_le n recording was
    | inr (x, was, e) ↦ h.created_le n x was
  ];
  consistent = λ n recording p. elim (modified k n f r.objects recording p) [
    | inl was ↦ h.consistent n recording was
    | inr (x, was, e) ↦ subst IsConsistent e (keeps x (h.consistent n x was))
  ];
  own = λ sid n p. elim (Option-cases (lookup n r.objects)) [
    | inl absent ↦ cc (h.own sid n p, absent)
    | inr (x, found) ↦ ground (arith, lookup-modify k n f r.objects, found, same x, h.own sid n p)
  ];
}

pub listed :
    (sid : String) (x : ActiveRecording) (r : Recorder)
    → IsConsistent x
    → x.meta.session_id ≡ sid
    → IsRecorder r
    → IsRecorder (list_recording sid x r)
listed sid x r consistent session h = record {
  created_le = λ n y p. elim (Bool-cases (r.created + 1 == n)) [
    | inl new ↦ ground (arith, new)
    | inr old ↦
        ground (arith, h.created_le n y, lookup-insert (r.created + 1) n x r.objects, old, p)
  ];
  consistent = λ n y p. elim (Bool-cases (r.created + 1 == n)) [
    | inl new ↦
        subst IsConsistent
          (some-inj (ground (arith, lookup-insert (r.created + 1) n x r.objects, new, p)))
          consistent
    | inr old ↦
        h.consistent n y (ground (arith, lookup-insert (r.created + 1) n x r.objects, old, p))
  ];
  own = λ s n p. elim (Bool-cases (sid == s)) [
    | inl same ↦
        let number : r.created + 1 ≡ n =
          some-inj (ground (arith, lookup-insert sid s (r.created + 1) r.active, same, p)) in
        ground (
          arith,
          lookup-insert (r.created + 1) n x r.objects,
          number,
          session,
          (string_key.same_iff sid s).0 same,
        )
    | inr other ↦
        let was : lookup s r.active ≡ some n =
          ground (arith, lookup-insert sid s (r.created + 1) r.active, other, p) in
        elim (Option-cases (lookup n r.objects)) [
          | inl absent ↦ cc (h.own s n was, absent)
          | inr (y, found) ↦ ground (
            arith,
            lookup-insert (r.created + 1) n x r.objects,
            h.created_le n y found,
            h.own s n was,
            found,
          )
        ]
  ];
}
