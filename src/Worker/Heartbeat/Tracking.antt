-- ===== src/Worker/Heartbeat/Tracking.antt =====
-- What the manager of worker/heartbeat.py keeps up: one registration to a task, a count of them, and
-- beats of registered tasks only.
use litestar_queues.Base.{
  ℕ, suc, Option, none, some, List, [], ◌∷◌, String, pos, Dict, get, insert, delete, get-insert,
  get-delete, nat_eq, ◌==◌, Apart, All, insert-Apart, delete-Apart, length, ◌≡◌, refl, sym, ap, ◌≢◌,
  eq_self, eq_of_beq, beq_of_ne, Bool-cases, Option-cases, inl, inr, arith, subst, ◌∙◌,
}
use litestar_queues.Worker.Heartbeat.{
  HeartbeatManager, HeartbeatRegistration, register, unregister, store_beat, set_misses, touched,
  touched_loop, unregister_all, clear_registrations, kept_detail,
}

module _ {ℓ} {V : Type ℓ} where
  length-insert_new :
      (k : ℕ) (v : V) (d : Dict ℕ V) → get k d ≡ none → length (insert k v d) ≡ suc (length d)
  unfolding get insert
  length-insert_new k v [] h = refl
  length-insert_new k v ((j, w) ∷ d) h = ground (arith, length-insert_new k v d)

  length-insert_known :
      (k : ℕ) (v w : V) (d : Dict ℕ V) → get k d ≡ some w → length (insert k v d) ≡ length d
  unfolding get insert
  length-insert_known k v w [] h = ground arith
  length-insert_known k v w ((j, u) ∷ d) h = ground (arith, length-insert_known k v w d)

  pub delete_absent : (k : ℕ) (d : Dict ℕ V) → All (λ y. k ≢ y.0) d → delete k d ≡ d
  unfolding delete
  delete_absent k [] a = refl
  delete_absent k ((j, w) ∷ d) a =
      rw (beq_of_ne j k (λ e. a.0 (sym e))) (ap (λ e. (j, w) ∷ e) (delete_absent k d a.1))

  length-delete :
      (k : ℕ) (w : V) (d : Dict ℕ V)
      → Apart d
      → get k d ≡ some w
      → suc (length (delete k d)) ≡ length d
  unfolding get delete
  length-delete k w [] a h = ground arith
  length-delete k w ((j, v) ∷ d) a h = elim (Bool-cases (j == k)) [
    | inl same ↦
        let away : All (λ y. k ≢ y.0) d =
          subst (λ i. All (λ y. i ≢ y.0) d) (eq_of_beq j k same) a.0 in
        rw same (rw (delete_absent k d away, delete) refl)
    | inr other ↦ rw other (ap suc (length-delete k w d a.1 (rw other at h)))
  ]

pub record IsTracked (m : HeartbeatManager) : Type 0 where
  pub apart : Apart m.registrations
  pub counted : m.active ≡ pos (length m.registrations)
  pub registered : (i : ℕ) → get i m.registrations ≡ none → get i m.beats ≡ none

pub register-IsTracked :
    (m : HeartbeatManager) (i : ℕ) (expected : Option ℕ)
    → IsTracked m
    → IsTracked (register m i expected)
unfolding register
register-IsTracked m i expected t =
    let r : HeartbeatRegistration = record {
      expected_retry_count = expected;
      consecutive_misses = 0;
    } in
    let known : (j : ℕ) → get j (insert i r m.registrations) ≡ none → get j m.registrations ≡ none =
      λ j h. ground (arith, get-insert i j r m.registrations, h) in
    elim (Option-cases (get i m.registrations)) [
      | inl fresh ↦ rw fresh (record {
        apart = insert-Apart i r m.registrations t.apart;
        counted = rw (length-insert_new i r m.registrations fresh) (rw t.counted refl);
        registered = λ j h. t.registered j (known j h);
      })
      | inr (w, old) ↦ rw old (record {
        apart = insert-Apart i r m.registrations t.apart;
        counted = rw (length-insert_known i r w m.registrations old) t.counted;
        registered = λ j h. t.registered j (known j h);
      })
    ]

pub unregister-IsTracked : (m : HeartbeatManager) (i : ℕ) → IsTracked m → IsTracked (unregister m i)
unfolding unregister
unregister-IsTracked m i t = elim (Option-cases (get i m.registrations)) [
  | inl absent ↦ rw (absent, unregister) t
  | inr (w, old) ↦
      rw (old, unregister)
        (record {
          apart = delete-Apart i m.registrations t.apart;
          counted = rw t.counted (rw (sym (length-delete i w m.registrations t.apart old)) refl);
          registered = λ j h.
              ground
                (arith, get-delete i j m.registrations, get-delete i j m.beats, h, t.registered j);
        })
]

pub store_beat-IsTracked :
    (m : HeartbeatManager) (i : ℕ) (detail : Option String)
    → IsTracked m
    → IsTracked (store_beat m i detail)
unfolding store_beat
store_beat-IsTracked m i detail t = elim (Option-cases (get i m.registrations)) [
  | inl absent ↦ rw (absent, store_beat) t
  | inr (w, old) ↦
      rw (old, store_beat)
        (record {
          apart = t.apart;
          counted = t.counted;
          registered = λ j h. ground (
            arith,
            get-insert i j (kept_detail detail) m.beats,
            nat_eq.test_iff i j,
            h,
            old,
            t.registered j,
          );
        })
]

pub set_misses-IsTracked :
    (i : ℕ) (r w : HeartbeatRegistration) (m : HeartbeatManager) (n : ℕ)
    → get i m.registrations ≡ some w
    → IsTracked m
    → IsTracked (set_misses i r m n)
unfolding set_misses
set_misses-IsTracked i r w m n old t =
    let r' : HeartbeatRegistration = record r { consecutive_misses = n } in
    record {
      apart = insert-Apart i r' m.registrations t.apart;
      counted = rw (length-insert_known i r' w m.registrations old) t.counted;
      registered = λ j h. t.registered j (ground (arith, get-insert i j r' m.registrations, h));
    }

touched-IsTracked : (m : HeartbeatManager) (i : ℕ) → IsTracked m → IsTracked (touched m i)
unfolding touched
touched-IsTracked m i t = elim (Option-cases (get i m.registrations)) [
  | inl absent ↦ rw (absent, touched) t
  | inr (w, old) ↦
      let m' : HeartbeatManager = record m { beats = delete i m.beats } in
      rw (old, touched)
        (set_misses-IsTracked i w w m' 0 old (record {
          apart = t.apart;
          counted = t.counted;
          registered = λ j h. ground (arith, get-delete i j m.beats, t.registered j h);
        }))
]

pub touched_loop-IsTracked :
    (m : HeartbeatManager) (is : List ℕ) → IsTracked m → IsTracked (touched_loop m is)
unfolding touched_loop
touched_loop-IsTracked m [] t = t
touched_loop-IsTracked m (i ∷ is) t =
    touched_loop-IsTracked (touched m i) is (touched-IsTracked m i t)

unregister_all-IsTracked :
    (m : HeartbeatManager) (d : Dict ℕ HeartbeatRegistration)
    → IsTracked m
    → IsTracked (unregister_all m d)
unfolding unregister_all
unregister_all-IsTracked m [] t = t
unregister_all-IsTracked m ((i, r) ∷ d) t =
    unregister_all-IsTracked (unregister m i) d (unregister-IsTracked m i t)

unregister_first :
    (m : HeartbeatManager) (i : ℕ) (r : HeartbeatRegistration) (d : Dict ℕ HeartbeatRegistration)
    → m.registrations ≡ (i, r) ∷ d
    → All (λ y. i ≢ y.0) d
    → (unregister m i).registrations ≡ d
unfolding get delete unregister
unregister_first m i r d e a =
    let found : get i m.registrations ≡ some r = rw e (rw (eq_self i) refl) in
    rw (found, unregister) (rw e (rw (eq_self i) (delete_absent i d a)))

unregister_all_empties :
    (m : HeartbeatManager) (d : Dict ℕ HeartbeatRegistration)
    → m.registrations ≡ d
    → Apart d
    → (unregister_all m d).registrations ≡ []
unfolding unregister_all
unregister_all_empties m [] e a = e
unregister_all_empties m ((i, r) ∷ d) e a =
    unregister_all_empties (unregister m i) d (unregister_first m i r d e a.0) a.1

pub clear_registrations-lem :
    (m : HeartbeatManager)
    → IsTracked m
    → IsTracked (clear_registrations m)
      × ((clear_registrations m).registrations ≡ [])
      × ((clear_registrations m).active ≡ pos 0)
unfolding clear_registrations get
clear_registrations-lem m t =
    let m' = unregister_all m m.registrations in
    let u : IsTracked m' = unregister_all-IsTracked m m.registrations t in
    let none_left : m'.registrations ≡ [] = unregister_all_empties m m.registrations refl t.apart in
    (
      record { apart = u.apart; counted = u.counted; registered = λ i h. refl },
      none_left,
      u.counted ∙ ap (λ d. pos (length d)) none_left,
    )
