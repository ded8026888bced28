-- ===== src/Upload/Controls.antt =====
-- internal/app/static/app.js: `activeUpload`, the file input, the cancel button and the progress box
-- while uploads begin and end. An upload is a number; the uploads whose handler has not ended are
-- those that run.
use termdock.Base.{
  ℕ, ◌+◌, ◌≡◌, ◌⊎◌, refl, ap, subst, sym, ◌∙◌, Bool, true, false, List, [], ◌∷◌, Option, none, some,
  ◌==◌, eq_self, arith, if◌then◌else◌, inl, inr,
}
use mathlib.Core.Bool.{true≢false}

pub record Controls : Type 0 where
  -- `activeUpload`
  pub active : Option ℕ
  pub input_disabled : Bool
  pub is_chosen : Bool
  pub cancel_disabled : Bool
  pub progress_hidden : Bool
  pub running : List ℕ
  pub cancelled : List ℕ
  pub made : ℕ
  -- The timers that hide the progress box.
  pub timers : ℕ

-- How `uploadInput.onchange` ends.
pub data End : Type 0 where
  completed : End
  stopped : End
  failed : End

abbrev pub idle_controls : Controls
idle_controls = record {
  active = none;
  input_disabled = false;
  is_chosen = false;
  cancel_disabled = false;
  progress_hidden = true;
  running = [];
  cancelled = [];
  made = 0;
  timers = 0;
}

abbrev pub is_active : ℕ → Option ℕ → Bool
is_active i none = false
is_active i (some j) = i == j

-- `finishUpload`
unfoldable pub finish_controls : ℕ → Controls → Controls
finish_controls i c =
    if is_active i c.active
    then record c {
      active = none;
      input_disabled = false;
      cancel_disabled = false;
      is_chosen = false;
    }
    else c

-- The beginning of `uploadInput.onchange` with a file.
unfoldable pub begin_controls : Controls → Controls
begin_controls c = record c {
  active = some c.made;
  input_disabled = true;
  is_chosen = true;
  progress_hidden = false;
  running = c.made ∷ c.running;
  made = c.made + 1;
}

abbrev pub without : ℕ → List ℕ → List ℕ
without i [] = []
without i (j ∷ js) = if i == j then js else j ∷ without i js

abbrev pub timers_after : End → ℕ → ℕ
timers_after completed timers = timers + 1
timers_after stopped timers = timers
timers_after failed timers = timers

-- The end of the handler of an upload, `finally` included.
unfoldable pub end_controls : ℕ → End → Controls → Controls
unfolding finish_controls
end_controls i how c =
    finish_controls i
      (record c { running = without i c.running; timers = timers_after how c.timers })

-- `cancelUpload.onclick`
abbrev cancel_active : Option ℕ → Controls → Controls
cancel_active none c = c
cancel_active (some i) c = record c { cancel_disabled = true; cancelled = i ∷ c.cancelled }

unfoldable pub cancel_controls : Controls → Controls
cancel_controls c = cancel_active c.active c

abbrev hides : Option ℕ → Bool → Bool
hides none hidden = true
hides (some i) hidden = hidden

-- A timer's callback.
unfoldable pub hide_progress : ℕ → Controls → Controls
hide_progress timers c = record c {
  progress_hidden = hides c.active c.progress_hidden;
  timers = timers;
}

abbrev pub is_running : ℕ → List ℕ → Bool
is_running i [] = false
is_running i (j ∷ js) = if i == j then true else is_running i js

-- A disabled input takes no file and a disabled button no click.
pub data Step (c : Controls) : Controls → Type 0 where
  chooses : c.input_disabled ≡ false → Step c (begin_controls c)
  ends : (i : ℕ) (how : End) → is_running i c.running ≡ true → Step c (end_controls i how c)
  cancels : c.cancel_disabled ≡ false → Step c (cancel_controls c)
  fires : (timers : ℕ) → c.timers ≡ timers + 1 → Step c (hide_progress timers c)

pub data Reach : Controls → Type 0 where
  start : Reach idle_controls
  next : {c d : Controls} → Reach c → Step c d → Reach d

-- No upload runs, and the next one can be chosen and cancelled.
abbrev pub IsIdle : Controls → Type 0
IsIdle c =
    (c.active ≡ none)
    × (c.running ≡ [])
    × (c.input_disabled ≡ false)
    × (c.cancel_disabled ≡ false)
    × (c.is_chosen ≡ false)

-- One upload runs, it is the active one, the input is disabled, the box is shown, and if the button is
-- disabled then the upload was cancelled.
abbrev pub IsBusy : Controls → ℕ → Type 0
IsBusy c i =
    (c.active ≡ some i)
    × (c.running ≡ i ∷ [])
    × (c.input_disabled ≡ true)
    × (c.progress_hidden ≡ false)
    × (c.cancel_disabled ≡ true → is_running i c.cancelled ≡ true)

IsSingle : Controls → Type 0
IsSingle c = IsIdle c ⊎ ((i : ℕ) × IsBusy c i)

absurd_bool : {b : Bool} → b ≡ true → b ≡ false → ⊥
absurd_bool t f = true≢false (sym t ∙ f)

idle-Step : {c d : Controls} → IsIdle c → Step c d → IsSingle d
unfolding IsSingle begin_controls end_controls cancel_controls hide_progress
idle-Step {c} h (chooses e) = inr (
  c.made,
  (refl, ap (λ (js : List ℕ). c.made ∷ js) h.1, refl, refl, (λ t. absurd (absurd_bool t h.3))),
)
idle-Step {c} h (ends i how r) = absurd (absurd_bool r (ap (is_running i) h.1))
idle-Step {c} h (cancels e) = inl (subst IsIdle (ap (λ a. cancel_active a c) (sym h.0)) h)
idle-Step {c} h (fires timers e) = inl (h.0, h.1, h.2, h.3, h.4)

ends_same : (i j : ℕ) → is_running i (j ∷ []) ≡ true → (i == j) ≡ true
ends_same i j h = ground arith

busy-Step : {c d : Controls} (j : ℕ) → IsBusy c j → Step c d → IsSingle d
unfolding IsSingle begin_controls end_controls finish_controls cancel_controls hide_progress
busy-Step {c} j h (chooses e) = absurd (absurd_bool h.2 e)
busy-Step {c} j h (ends i how r) =
    let same = ends_same i j (sym (ap (is_running i) h.1) ∙ r) in
    rw (h.0) (rw same (inl (refl, (rw (h.1) (rw same refl)), refl, refl, refl)))
busy-Step {c} j h (cancels e) =
    subst (λ a. IsSingle (cancel_active a c)) (sym h.0)
      (inr (j, (h.0, h.1, h.2, h.3, (λ t. rw (eq_self j) refl))))
busy-Step {c} j h (fires timers e) = inr (j, (h.0, h.1, h.2, rw (h.0) h.3, h.4))

-- Whatever files are chosen, however uploads end, and whenever the cancel button is pressed and a
-- timer fires: either no upload runs, none is active, the input is empty and takes a file, and the
-- cancel button is enabled; or exactly one runs, it is the active one, the input is disabled, its
-- progress is shown, and a disabled cancel button means that it was cancelled.
pub Reach-IsSingle : {c : Controls} → Reach c → IsIdle c ⊎ ((i : ℕ) × IsBusy c i)
unfolding IsSingle
Reach-IsSingle start = inl (refl, refl, refl, refl, refl)
Reach-IsSingle (next r s) = elim (Reach-IsSingle r) [
  | inl h ↦ idle-Step h s
  | inr (j, h) ↦ busy-Step j h s
]
