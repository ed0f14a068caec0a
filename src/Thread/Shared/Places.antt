-- ===== src/Thread/Shared/Places.antt =====
-- What is at each place of a new thread, in whatever order the steps at a `UThread` of
-- bazelPro/src/lib/uthread.cc come.
use ng.Base.{
  set, ◌-◌, ℕ, ◌≡◌, refl, ◌⊎◌, inl, arith, List, [], ◌∷◌, ◌++◌, Option, none, some, Bool, true,
  false, if◌then◌else◌, append-nil, ap, ◌∙◌,
}
use ng.Thread.{strncpy, t_name_len, UThread, exit}
use ng.Thread.Shared.{
  Place, at_set_name, at_self_name, at_self_flag, at_running, at_choice, in_call, in_init, in_run,
  in_exit, over, Begun, called, on_init, ran, on_exit, Shared,
}

-- The user's code that the thread is to run.
abbrev pub body : Option ℕ → ℕ → List Begun
body none arg = on_init ∷ ran ∷ on_exit ∷ []
body (some cb) arg = called cb arg ∷ []

-- What was begun at each place; a thread that is over has begun all unless it was cancelled.
abbrev pub BegunAt : Option ℕ → ℕ → Bool → Place → List Begun → Type 0
BegunAt cb arg cancelled at_set_name begun = begun ≡ []
BegunAt cb arg cancelled at_self_name begun = begun ≡ []
BegunAt cb arg cancelled at_self_flag begun = begun ≡ []
BegunAt cb arg cancelled at_running begun = begun ≡ []
BegunAt cb arg cancelled at_choice begun = begun ≡ []
BegunAt cb arg cancelled in_call begun = begun ≡ body cb arg
BegunAt cb arg cancelled in_init begun = (cb ≡ none) × (begun ≡ on_init ∷ [])
BegunAt cb arg cancelled in_run begun = (cb ≡ none) × (begun ≡ on_init ∷ ran ∷ [])
BegunAt cb arg cancelled in_exit begun = begun ≡ body cb arg
BegunAt cb arg true over begun = (more : List Begun) × (begun ++ more ≡ body cb arg)
BegunAt cb arg false over begun = begun ≡ body cb arg

-- Whether the flag was set by the thread.
abbrev pub is_flagged : Place → Bool
is_flagged at_set_name = false
is_flagged at_self_name = false
is_flagged at_self_flag = false
is_flagged at_running = false
is_flagged place = true

-- The id given to `pthread_setname_np`: none yet, 0, or that of the thread.
abbrev pub NamedAs : ℕ → Option ℕ → Type 0
NamedAs real none = Unit
NamedAs real (some id) = (id ≡ 0) ⊎ (id ≡ real)

-- What the thread copies to its own variable, over what that held.
abbrev pub copied : List ℕ → List ℕ → List ℕ
copied before name = set (strncpy before name t_name_len) (t_name_len - 1) 0

-- The flag of its own name is only set when the name is whole.
abbrev pub SelfAt : List ℕ → List ℕ → Place → Bool → List ℕ → Type 0
SelfAt before name at_set_name flag self = (flag ≡ false) × (self ≡ before)
SelfAt before name at_self_name flag self = (flag ≡ false) × (self ≡ before)
SelfAt before name at_self_flag flag self = (flag ≡ false) × (self ≡ copied before name)
SelfAt before name place flag self = (flag ≡ false) ⊎ (self ≡ copied before name)

pub record IsSafe (before name : List ℕ) (cb : Option ℕ) (arg real : ℕ) (s : Shared) : Type 0 where
  pub same_real : s.real ≡ real
  pub name_kept : s.object.m_thread_name ≡ name
  pub cb_kept : s.object.m_create_cb ≡ cb
  pub arg_kept : s.object.m_arg ≡ arg
  pub id_own : (s.object.m_thread_id ≡ 0) ⊎ (s.object.m_thread_id ≡ real)
  pub named_own : NamedAs real s.named
  pub self_at : SelfAt before name s.place s.self_flag s.self_name
  pub begun_at : BegunAt cb arg s.cancelled s.place s.begun
  pub not_early : is_flagged s.place ≡ false → s.object.m_is_thread_running ≡ false
  pub still_running :
      s.exited ≡ false → is_flagged s.place ≡ true → s.object.m_is_thread_running ≡ true
  pub cancelled_by_exit : s.exited ≡ false → s.cancelled ≡ false

pub begun-over :
    (cb : Option ℕ) (arg : ℕ) (cancelled : Bool) (begun : List Begun)
    → begun ≡ body cb arg
    → BegunAt cb arg cancelled over begun
begun-over cb arg true begun h = ([], append-nil begun ∙ h)
begun-over cb arg false begun h = h

pub begun-cancelled :
    (cb : Option ℕ) (arg : ℕ) (c d : Bool) (p : Place) (begun : List Begun)
    → BegunAt cb arg c p begun
    → (d ≡ false → c ≡ false)
    → BegunAt cb arg d p begun
begun-cancelled cb arg c d at_set_name begun h k = h
begun-cancelled cb arg c d at_self_name begun h k = h
begun-cancelled cb arg c d at_self_flag begun h k = h
begun-cancelled cb arg c d at_running begun h k = h
begun-cancelled cb arg c d at_choice begun h k = h
begun-cancelled cb arg c d in_call begun h k = h
begun-cancelled cb arg c d in_init begun h k = h
begun-cancelled cb arg c d in_run begun h k = h
begun-cancelled cb arg c d in_exit begun h k = h
begun-cancelled cb arg true true over begun h k = h
begun-cancelled cb arg true false over begun h k = absurd (cc (k refl))
begun-cancelled cb arg false d over begun h k = begun-over cb arg d begun h

-- What was begun at any place is a part of the body.
pub begun-ends :
    (cb : Option ℕ) (arg : ℕ) (c : Bool) (p : Place) (begun : List Begun)
    → BegunAt cb arg c p begun
    → (more : List Begun) × (begun ++ more ≡ body cb arg)
begun-ends cb arg c at_set_name begun h = (body cb arg, ap (λ b. b ++ body cb arg) h)
begun-ends cb arg c at_self_name begun h = (body cb arg, ap (λ b. b ++ body cb arg) h)
begun-ends cb arg c at_self_flag begun h = (body cb arg, ap (λ b. b ++ body cb arg) h)
begun-ends cb arg c at_running begun h = (body cb arg, ap (λ b. b ++ body cb arg) h)
begun-ends cb arg c at_choice begun h = (body cb arg, ap (λ b. b ++ body cb arg) h)
begun-ends cb arg c in_call begun h = ([], append-nil begun ∙ h)
begun-ends cb arg c in_init begun h = (ran ∷ on_exit ∷ [], rw (h.0, h.1) refl)
begun-ends cb arg c in_run begun h = (on_exit ∷ [], rw (h.0, h.1) refl)
begun-ends cb arg c in_exit begun h = ([], append-nil begun ∙ h)
begun-ends cb arg true over begun h = h
begun-ends cb arg false over begun h = ([], append-nil begun ∙ h)

pub exit-keeps :
    (o : UThread) (self : ℕ)
    → ((exit o self).0.m_thread_name ≡ o.m_thread_name)
      × ((exit o self).0.m_create_cb ≡ o.m_create_cb)
      × ((exit o self).0.m_arg ≡ o.m_arg)
      × ((exit o self).0.m_thread_id ≡ o.m_thread_id)
      × (o.m_is_thread_running ≡ false → (exit o self).0.m_is_thread_running ≡ false)
unfolding exit
exit-keeps o self = ground arith

pub if-false : (a b : Bool) → (if a then true else b) ≡ false → b ≡ false
if-false true b h = absurd (cc)
if-false false b h = h

pub self-over :
    (before name : List ℕ) (p : Place) (flag : Bool) (self : List ℕ)
    → SelfAt before name p flag self
    → (flag ≡ false) ⊎ (self ≡ copied before name)
self-over before name at_set_name flag self h = inl h.0
self-over before name at_self_name flag self h = inl h.0
self-over before name at_self_flag flag self h = inl h.0
self-over before name at_running flag self h = h
self-over before name at_choice flag self h = h
self-over before name in_call flag self h = h
self-over before name in_init flag self h = h
self-over before name in_run flag self h = h
self-over before name in_exit flag self h = h
self-over before name over flag self h = h

pub self-late :
    (before name : List ℕ) (p : Place) (flag : Bool) (self : List ℕ)
    → is_flagged p ≡ true
    → (flag ≡ false) ⊎ (self ≡ copied before name)
    → SelfAt before name p flag self
self-late before name at_set_name flag self h k = absurd (cc)
self-late before name at_self_name flag self h k = absurd (cc)
self-late before name at_self_flag flag self h k = absurd (cc)
self-late before name at_running flag self h k = absurd (cc)
self-late before name at_choice flag self h k = k
self-late before name in_call flag self h k = k
self-late before name in_init flag self h k = k
self-late before name in_run flag self h k = k
self-late before name in_exit flag self h k = k
self-late before name over flag self h k = k
