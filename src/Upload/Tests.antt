-- ===== src/Upload/Tests.antt =====
-- Runs of the upload (internal/server/upload.go and internal/app/static/app.js) at fixed inputs,
-- and the theorems of its properties applied there.
use termdock.Upload.Controls.{
  Controls, stopped, idle_controls, begin_controls, end_controls, cancel_controls, chooses, cancels,
  ends, start, next, Reach, IsIdle, IsBusy, Reach-IsSingle,
}
use termdock.Base.{◌⊎◌, arith, ℕ, suc, ◌≡◌, refl, true, false, List, [], ◌∷◌, some}
use termdock.Base.Text.{Text, codes, text_eq_iff}
use termdock.Base.Maps.{lookup}
use termdock.Filepath.{file_path, join, base_name}
use termdock.Upload.{Server, System, file, directory, create_chunk_upload}
use termdock.Upload.Handlers.{upload_chunk, chunk_upload_status, complete_chunk_upload}
use termdock.Upload.Client.{
  Network, Fate, delivered, answer_lost, no_press, completed, deliver, pause, cancel_on_server,
  request, before_next, send_chunk, chunk_received, send_chunk_with_retry, send_chunks,
  finish_upload, send_and_finish, after_creation, upload_file,
}
use termdock.Upload.Delivery.{upload_file-delivers}
use termdock.Upload.Progress.{healthy}
use termdock.Upload.Success.{IsKind}
use termdock.Upload.Liveness.{upload_file-completes}

abbrev fine : System
fine = record {
  temporary = some (codes "/.termdock-upload-1");
  random = some (1 ∷ 171 ∷ []);
  chmod_fails = false;
  truncate_fails = false;
  close_fails = false;
  stat_fails = false;
  open_fails = false;
  write_fails = false;
  written = 0;
  sync_fails = false;
  rename_fails = false;
  remove_fails = false;
}

-- The second request, which carries the chunk, loses its answer.
abbrev shaky : ℕ → Fate
shaky n = elim n [
  | suc m ↦ elim m [ ℕ.zero ↦ answer_lost | suc _ ↦ delivered ]
  | ℕ.zero ↦ delivered
]

abbrev net : Network
net = record {
  fate = shaky;
  press = λ _. no_press;
  clock = λ n. n;
  authenticated = λ _. true;
  system = λ _. fine;
}

abbrev empty_server : Server
empty_server = record { working_dir = codes "/"; uploads = []; disk = (codes "/", directory) ∷ [] }

abbrev greeting : List ℕ
greeting = 104 ∷ 105 ∷ []

upload_completes : (upload_file net greeting (codes "/") (codes "a") empty_server 0).0 ≡ completed
unfolding upload_file after_creation send_and_finish send_chunks send_chunk_with_retry send_chunk
    chunk_received before_next finish_upload request pause deliver cancel_on_server
    create_chunk_upload upload_chunk chunk_upload_status complete_chunk_upload file_path join
    base_name
upload_completes = refl

upload_file-delivers_example :
    lookup
      (codes "/a")
      (upload_file net greeting (codes "/") (codes "a") empty_server 0).1.server.disk
    ≡ some (file greeting)
unfolding join file_path base_name
upload_file-delivers_example =
    upload_file-delivers net greeting (codes "/") (codes "a") empty_server 0 upload_completes

abbrev temporary : Text
temporary = codes "/.termdock-upload-1"

abbrev kind_net : Network
kind_net = record {
  fate = λ _. delivered;
  press = λ _. no_press;
  clock = λ _. 5;
  authenticated = λ _. true;
  system = λ _. healthy temporary (1 ∷ 171 ∷ []);
}

kind_net-IsKind : IsKind kind_net temporary (1 ∷ 171 ∷ [])
kind_net-IsKind = record {
  delivers = λ n. refl;
  unpressed = λ n. refl;
  logged_in = λ n. refl;
  works = λ n. refl;
  timely = λ n k. omega arith;
}

upload_file-completes_example :
    ((upload_file kind_net greeting (codes "/") (codes "a") empty_server 0).0 ≡ completed)
    × (lookup
          (codes "/a")
          (upload_file kind_net greeting (codes "/") (codes "a") empty_server 0).1.server.disk
        ≡ some (file greeting))
unfolding join file_path base_name lookup
upload_file-completes_example =
    upload_file-completes kind_net greeting (codes "/") (codes "a") temporary (1 ∷ 171 ∷ [])
      empty_server 0 kind_net-IsKind refl (omega arith) refl refl refl
      (λ e. ground (arith, (text_eq_iff temporary (codes "/a")).1 e))

-- An upload that is cancelled and another one after it.
abbrev cancelled_run : Controls
unfolding begin_controls cancel_controls end_controls
cancelled_run =
    begin_controls (end_controls 0 stopped (cancel_controls (begin_controls idle_controls)))

cancelled_run-Reach : Reach cancelled_run
unfolding begin_controls cancel_controls end_controls
cancelled_run-Reach =
    next (next (next (next start (chooses refl)) (cancels refl)) (ends 0 stopped refl))
      (chooses refl)

Reach-IsSingle_example : IsIdle cancelled_run ⊎ ((i : ℕ) × IsBusy cancelled_run i)
Reach-IsSingle_example = Reach-IsSingle cancelled_run-Reach
