-- ===== src/Cycle/Tick/Calm.antt =====
-- The stages that sense, narrate and learn make no autonomous call, leave the agency alone and keep
-- the contents of the workspace within its capacity.
use johnny.Prelude.{
  ℕ, String, ◌≡◌, refl, ◌∙◌, Bool, true, false, Option, none, some, List, [], ◌∷◌, select, length,
  ◌≤◌, All, length-take, arith, ◌==◌, ◌++◌, Bool-cases, inl, inr,
}
use johnny.Prelude.Exec.{◌>>=◌, ◌>>◌}
use johnny.Prelude.Sort.{sort_desc}
use johnny.Workspace.{WorkspaceItem}
use johnny.Float.{Float}
use johnny.Drives.Engine.{Urge}
use johnny.Goals.Arbiter.{Mood}
use johnny.Drives.Engine.{DriveReading}
use johnny.Cycle.Interval.{Tempo}
use johnny.Cycle.Scene.{
  Call, broadcast, perceived, drives_stepped, appraised, put_working, decayed_working, read_working,
  Working, selected, contents_set, recalled, narrated, deliberated, vetted, committed, acted,
  consolidated, settled, learned, Answer, Collaborators, Scene, Stage, call, stage, emit, modify,
  in_context,
}
use johnny.Cycle.Stages.{
  perceive, perceive_with, emit_percepts, appraise, collect_events, step_drives_with, appraise_with,
  emit_urges, apply_affective_context, set_interval, attend, refresh_with, put_all, select_with,
  put_contents, recall, recall_with, join_recalled, narrate, narrate_with, emit_thought, learn,
  learn_with, broadcast_state,
}
use johnny.Cycle.Tick.{begun, sense, conclude}
use johnny.Cycle.Keeps.{Keeps, bind-Keeps, stage-Keeps, emit-Keeps}

-- The calls by which the cycle acts of its own accord.
abbrev pub is_autonomous : {W : Type 0} → Call W → Bool
is_autonomous (deliberated urges mood contents) = true
is_autonomous (vetted action contents) = true
is_autonomous (committed v) = true
is_autonomous (acted action goal contents) = true
is_autonomous (consolidated tool output) = true
is_autonomous (settled goal summary success) = true
is_autonomous _ = false

-- The blackboard is given no more than the capacity.
abbrev pub FitsCall : {W : Type 0} → ℕ → Call W → Type 0
FitsCall capacity (contents_set items) = length items ≤ capacity
FitsCall capacity _ = Unit

abbrev pub Fits : {W : Type 0} → ℕ → Scene W → Type 0
Fits capacity s = (length s.ctx.contents ≤ capacity) × All (FitsCall capacity) s.calls

module _ {W : Type 0} (capacity : ℕ) where
  abbrev pub Quiet : Scene W → Scene W → Type 0
  Quiet s t =
      (select is_autonomous t.calls ≡ select is_autonomous s.calls)
      × (t.full_agency ≡ s.full_agency)
      × (Fits capacity s → Fits capacity t)

  pub Quiet-trans : (s t u : Scene W) → Quiet s t → Quiet t u → Quiet s u
  Quiet-trans s t u h k = (k.0 ∙ h.0, k.1 ∙ h.1, λ m. k.2 (h.2 m))

  pub call-Quiet :
      {R : Type 0} (k : Call W) (answer : Answer W R)
      → is_autonomous k ≡ false
      → FitsCall capacity k
      → Keeps Quiet (call k answer)
  unfolding call
  call-Quiet k answer e fit s = (rw e refl, refl, λ h. (h.0, (fit, h.1)))

  emit-Quiet :
      (c : Collaborators W) (sender kind : String) (owner : Option String)
      → Keeps Quiet (emit c sender kind owner)
  emit-Quiet c sender kind owner =
      emit-Keeps Quiet Quiet-trans c sender kind owner (λ name e s. (refl, refl, λ h. h))
        (call-Quiet (broadcast sender kind) c.broadcast refl tt) (λ s. (refl, refl, λ h. h))

  pub stage-Quiet :
      (name : String) (m : Stage W (Unit {0}))
      → Keeps Quiet m
      → (s : Scene W) → Quiet s (stage name m s)
  stage-Quiet name m h s = stage-Keeps Quiet Quiet-trans name m (λ e t. (refl, refl, λ h. h)) h s

  seq :
      {A B : Type 0} (m : Stage W A) (g : A → Stage W B)
      → Keeps Quiet m
      → ((a : A) → Keeps Quiet (g a))
      → Keeps Quiet (m >>= g)
  seq m g hm hg = bind-Keeps Quiet Quiet-trans m g hm hg

module _ {W : Type 0} ⦃f : Float W⦄ (c : Collaborators W) (tempo : Tempo W) (capacity : ℕ) where
  emit_percepts-Quiet :
      (ps : List (WorkspaceItem W)) → Keeps (Quiet capacity) (emit_percepts c tempo capacity ps)
  unfolding emit_percepts
  emit_percepts-Quiet [] s = (refl, refl, λ h. h)
  emit_percepts-Quiet (p ∷ ps) s =
      seq capacity (emit c "sensorium" "percept" (some "perceive"))
        (λ _. emit_percepts c tempo capacity ps)
        (emit-Quiet capacity c "sensorium" "percept" (some "perceive"))
        (λ _. emit_percepts-Quiet ps) s

  perceive_with-Quiet :
      (answer : Option (Answer W (List (WorkspaceItem W))))
      → Keeps (Quiet capacity) (perceive_with c tempo capacity answer)
  unfolding call emit_percepts
  perceive_with-Quiet none s = (refl, refl, λ h. h)
  perceive_with-Quiet (some answer) s =
      seq capacity (call perceived answer)
        (λ percepts.
          in_context (λ x. record x { percepts = percepts })
          >> emit_percepts c tempo capacity percepts)
        (call-Quiet capacity perceived answer refl tt)
        (λ percepts t.
          emit_percepts-Quiet percepts (record t { ctx = record t.ctx { percepts = percepts } }))
        s

  emit_urges-Quiet : (us : List (Urge W)) → Keeps (Quiet capacity) (emit_urges c tempo capacity us)
  unfolding emit_urges
  emit_urges-Quiet [] s = (refl, refl, λ h. h)
  emit_urges-Quiet (u ∷ us) s =
      seq capacity (emit c "drives" _ (some "appraise")) (λ _. emit_urges c tempo capacity us)
        (emit-Quiet capacity c "drives" _ (some "appraise")) (λ _. emit_urges-Quiet us) s

  step_drives_with-Quiet :
      (answer : Option (Answer W (List (DriveReading W))))
      → Keeps (Quiet capacity) (step_drives_with c tempo capacity answer)
  unfolding call emit emit_urges
  step_drives_with-Quiet none s = (refl, refl, λ h. h)
  step_drives_with-Quiet (some answer) s =
      seq capacity (call (drives_stepped s.ctx.events) answer)
        (λ drives.
          modify (λ t. record t {
            last_urges = c.urges drives;
            ctx = record t.ctx { drives = drives; urges = c.urges drives };
          })
          >> emit c "drives" "drive.state" (some "appraise")
          >> emit_urges c tempo capacity (c.urges drives))
        (call-Quiet capacity (drives_stepped s.ctx.events) answer refl tt)
        (λ drives t.
          seq capacity (emit c "drives" "drive.state" (some "appraise"))
            (λ _. emit_urges c tempo capacity (c.urges drives))
            (emit-Quiet capacity c "drives" "drive.state" (some "appraise"))
            (λ _. emit_urges-Quiet (c.urges drives))
            (record t {
              last_urges = c.urges drives;
              ctx = record t.ctx { drives = drives; urges = c.urges drives };
            }))
        s

  appraise_with-Quiet :
      (answer : Option (Answer W (Mood W)))
      → Keeps (Quiet capacity) (appraise_with c tempo capacity answer)
  unfolding call emit
  appraise_with-Quiet none s = (refl, refl, λ h. h)
  appraise_with-Quiet (some answer) s =
      seq capacity (call (appraised s.ctx.percepts s.ctx.drives s.ctx.events) answer)
        (λ mood.
          in_context (λ x. record x { mood = some mood })
          >> emit c "affect" "mood" (some "appraise"))
        (call-Quiet capacity (appraised s.ctx.percepts s.ctx.drives s.ctx.events) answer refl tt)
        (λ mood t.
          emit-Quiet capacity c "affect" "mood" (some "appraise")
            (record t { ctx = record t.ctx { mood = some mood } }))
        s

  appraise-Quiet : Keeps (Quiet capacity) (appraise c tempo capacity)
  unfolding appraise
  appraise-Quiet s =
      seq capacity (collect_events c tempo capacity)
        (λ _.
          step_drives_with c tempo capacity c.step_drives
          >> (appraise_with c tempo capacity c.appraise
              >> (apply_affective_context c tempo capacity >> set_interval c tempo capacity)))
        (λ t. (refl, refl, λ h. h))
        (λ _.
          seq capacity (step_drives_with c tempo capacity c.step_drives)
            (λ _.
              appraise_with c tempo capacity c.appraise
              >> (apply_affective_context c tempo capacity >> set_interval c tempo capacity))
            (step_drives_with-Quiet c.step_drives)
            (λ _.
              seq capacity (appraise_with c tempo capacity c.appraise)
                (λ _. apply_affective_context c tempo capacity >> set_interval c tempo capacity)
                (appraise_with-Quiet c.appraise) (λ _ t. (refl, refl, λ h. (h.0, (tt, h.1))))))
        s

  put_all-Quiet :
      (memory : Working W) (ps : List (WorkspaceItem W))
      → Keeps (Quiet capacity) (put_all c tempo capacity memory ps)
  unfolding put_all
  put_all-Quiet memory [] s = (refl, refl, λ h. h)
  put_all-Quiet memory (p ∷ ps) s =
      seq capacity (call (put_working p) memory.put) (λ _. put_all c tempo capacity memory ps)
        (call-Quiet capacity (put_working p) memory.put refl tt) (λ _. put_all-Quiet memory ps) s

  refresh_with-Quiet :
      (memory : Option (Working W)) → Keeps (Quiet capacity) (refresh_with c tempo capacity memory)
  unfolding call put_all
  refresh_with-Quiet none s = (refl, refl, λ h. h)
  refresh_with-Quiet (some memory) s =
      seq capacity (put_all c tempo capacity memory s.ctx.percepts)
        (λ _. call decayed_working memory.decay >> call read_working memory.contents)
        (put_all-Quiet memory s.ctx.percepts)
        (λ _.
          seq capacity (call decayed_working memory.decay) (λ _. call read_working memory.contents)
            (call-Quiet capacity decayed_working memory.decay refl tt)
            (λ _. call-Quiet capacity read_working memory.contents refl tt))
        s

  select_with-Quiet :
      (answer : Option (Answer W (List (WorkspaceItem W)))) (working : List (WorkspaceItem W))
      → Keeps (Quiet capacity) (select_with c tempo capacity answer working)
  select_with-Quiet none working s = (refl, refl, λ h. h)
  select_with-Quiet (some answer) working s =
      call-Quiet capacity (selected working s.ctx.percepts) answer refl tt s

  put_contents-Quiet :
      (items : List (WorkspaceItem W))
      → Keeps (Quiet capacity) (put_contents c tempo capacity items)
  unfolding put_contents call
  put_contents-Quiet items s =
      (refl, refl, λ h. (length-take capacity items, (length-take capacity items, h.1)))

  attend-Quiet : Keeps (Quiet capacity) (attend c tempo capacity)
  unfolding attend
  attend-Quiet s =
      seq capacity (refresh_with c tempo capacity c.working)
        (λ working. select_with c tempo capacity c.select working >>= λ items.
          put_contents c tempo capacity items
          >> emit c "attention" "attention.selected" (some "attend"))
        (refresh_with-Quiet c.working)
        (λ working.
          seq capacity (select_with c tempo capacity c.select working)
            (λ items.
              put_contents c tempo capacity items
              >> emit c "attention" "attention.selected" (some "attend"))
            (select_with-Quiet c.select working)
            (λ items.
              seq capacity (put_contents c tempo capacity items)
                (λ _. emit c "attention" "attention.selected" (some "attend"))
                (put_contents-Quiet items)
                (λ _. emit-Quiet capacity c "attention" "attention.selected" (some "attend"))))
        s

  join_recalled-Quiet :
      (items : List (WorkspaceItem W))
      → Keeps (Quiet capacity) (join_recalled c tempo capacity items)
  unfolding put_contents emit
  join_recalled-Quiet [] s = (refl, refl, λ h. h)
  join_recalled-Quiet (r ∷ rs) s =
      let items = sort_desc f.lt (λ item. item.salience) (s.ctx.contents ++ r ∷ rs) in
      seq capacity (put_contents c tempo capacity items)
        (λ _. emit c "memory" "recall" (some "recall")) (put_contents-Quiet items)
        (λ _. emit-Quiet capacity c "memory" "recall" (some "recall")) s

  recall_with-Quiet :
      (answer : Option (Answer W (List (WorkspaceItem W))))
      → Keeps (Quiet capacity) (recall_with c tempo capacity answer)
  unfolding call put_contents emit
  recall_with-Quiet none s = (refl, refl, λ h. h)
  recall_with-Quiet (some answer) s =
      seq capacity (call (recalled s.ctx.contents) answer) (join_recalled c tempo capacity)
        (call-Quiet capacity (recalled s.ctx.contents) answer refl tt) join_recalled-Quiet s

  emit_thought-Quiet :
      (thought : Option String) → Keeps (Quiet capacity) (emit_thought c tempo capacity thought)
  emit_thought-Quiet none s = (refl, refl, λ h. h)
  emit_thought-Quiet (some text) s = elim (Bool-cases (text == "")) [
    | inl e ↦ rw e (refl, refl, λ h. h)
    | inr e ↦ rw e (emit-Quiet capacity c "narrator" "thought" (some "narrate") s)
  ]

  narrate_with-Quiet :
      (answer : Option (Answer W (Option String)))
      → Keeps (Quiet capacity) (narrate_with c tempo capacity answer)
  unfolding call emit
  narrate_with-Quiet none s = (refl, refl, λ h. h)
  narrate_with-Quiet (some answer) s =
      seq capacity (call (narrated s.ctx.contents) answer)
        (λ thought.
          in_context (λ x. record x { thought = thought }) >> emit_thought c tempo capacity thought)
        (call-Quiet capacity (narrated s.ctx.contents) answer refl tt)
        (λ thought t.
          emit_thought-Quiet thought (record t { ctx = record t.ctx { thought = thought } }))
        s

  learn_with-Quiet :
      (answer : Option (Answer W (Unit {0})))
      → Keeps (Quiet capacity) (learn_with c tempo capacity answer)
  learn_with-Quiet none s = (refl, refl, λ h. h)
  learn_with-Quiet (some answer) s =
      call-Quiet capacity (learned s.ctx.contents s.ctx.thought) answer refl tt s

  pub sense-Quiet : (s : Scene W) → Quiet capacity s (sense c tempo capacity s)
  unfolding sense perceive recall narrate
  sense-Quiet s =
      let start : Quiet capacity s (begun c tempo capacity s) =
        (refl, refl, λ h. (omega arith, h.1)) in
      let s0 = (emit c "cycle" "cycle.tick" none (begun c tempo capacity s)).1 in
      let s1 = stage "perceive" (perceive c tempo capacity) s0 in
      let s2 = stage "appraise" (appraise c tempo capacity) s1 in
      let s3 = stage "attend" (attend c tempo capacity) s2 in
      let s4 = stage "recall" (recall c tempo capacity) s3 in
      let s5 = stage "narrate" (narrate c tempo capacity) s4 in
      let q0 =
        Quiet-trans capacity s (begun c tempo capacity s) s0 start
          (emit-Quiet capacity c "cycle" "cycle.tick" none (begun c tempo capacity s)) in
      let q1 =
        stage-Quiet capacity "perceive" (perceive c tempo capacity) (perceive_with-Quiet c.perceive)
          s0 in
      let q2 = stage-Quiet capacity "appraise" (appraise c tempo capacity) appraise-Quiet s1 in
      let q3 = stage-Quiet capacity "attend" (attend c tempo capacity) attend-Quiet s2 in
      let q4 =
        stage-Quiet capacity "recall" (recall c tempo capacity) (recall_with-Quiet c.recall) s3 in
      let q5 =
        stage-Quiet capacity "narrate" (narrate c tempo capacity) (narrate_with-Quiet c.narrate)
          s4 in
      Quiet-trans capacity s s1 s5 (Quiet-trans capacity s s0 s1 q0 q1) (
        Quiet-trans capacity s1 s3 s5 (Quiet-trans capacity s1 s2 s3 q2 q3)
          (Quiet-trans capacity s3 s4 s5 q4 q5))

  pub conclude-Quiet : (s : Scene W) → Quiet capacity s (conclude c tempo capacity s)
  unfolding conclude learn broadcast_state
  conclude-Quiet s =
      let t = stage "learn" (learn c tempo capacity) s in
      Quiet-trans capacity s t (stage "state" (broadcast_state c tempo capacity) t)
        (stage-Quiet capacity "learn" (learn c tempo capacity) (learn_with-Quiet c.learn) s)
        (stage-Quiet capacity "state" (broadcast_state c tempo capacity)
          (emit-Quiet capacity c "cycle" "state" (some "state")) t)
