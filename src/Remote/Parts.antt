-- ===== src/Remote/Parts.antt =====
-- src/caremote.c: the index and the archive of a connection: where they are kept, and reading what has arrived.
use Prim.Native.String.{String}
use casync.Prelude.{
  ℕ, not, Option, none, some, List, if◌then◌else◌, ◌==◌, ◌||◌, length, Result, ok, err, eagain,
  enotty, ebusy, enomem,
}
use casync.Action.{Action, modify, require, ensure, ◌>>◌}
use casync.Remote.{Remote, RemoteFile, has, is_open}
use casync.Remote.Receive.{on_index, on_archive}

module _ {F : Type 0} where
  -- `ca_remote_file_read`: the data that have arrived; none at the end
  unfoldable pub file_read : RemoteFile F → Result (Option (List ℕ))
  file_read file =
      if is_open file.fd
      then err enotty
      else if not (length file.buffer == 0)
      then ok (some file.buffer)
      else if file.complete
      then ok none
      else err eagain

  -- `ca_remote_file_set_path`, given the copy of the path that strdup() makes
  unfoldable pub file_set_path : Option String → Action (RemoteFile F) (Unit {0})
  file_set_path copy = do
    ensure (λ file. not (is_open file.path)) ebusy
    ensure (λ file. not (is_open file.fd)) ebusy
    require (is_open copy) enomem
    modify (λ file. record file { path = copy })

  -- `ca_remote_file_set_fd`
  unfoldable pub file_set_fd : F → Action (RemoteFile F) (Unit {0})
  file_set_fd fd = do
    ensure (λ file. not (is_open file.path)) ebusy
    ensure (λ file. not (is_open file.fd)) ebusy
    modify (λ file. record file { fd = some fd })

module _ {F C : Type 0} where
  -- `ca_remote_read_index`
  unfoldable pub read_index_data : Remote F C → Result (Option (List ℕ))
  unfolding file_read
  read_index_data rr =
      if has rr.remote_feature_flags 0x400 || has rr.local_feature_flags 0x80
      then file_read rr.index_file
      else err enotty

  -- `ca_remote_read_archive`
  unfoldable pub read_archive_data : Remote F C → Result (Option (List ℕ))
  unfolding file_read
  read_archive_data rr =
      if has rr.remote_feature_flags 0x1000 || has rr.local_feature_flags 0x100
      then file_read rr.archive_file
      else err enotty

  -- `ca_remote_set_index_path`
  unfoldable pub set_index_path : Option String → Action (Remote F C) (Unit {0})
  unfolding file_set_path
  set_index_path copy = on_index (file_set_path copy)

  -- `ca_remote_set_index_fd`
  unfoldable pub set_index_fd : F → Action (Remote F C) (Unit {0})
  unfolding file_set_fd
  set_index_fd fd = on_index (file_set_fd fd)

  -- `ca_remote_set_archive_path`
  unfoldable pub set_archive_path : Option String → Action (Remote F C) (Unit {0})
  unfolding file_set_path
  set_archive_path copy = on_archive (file_set_path copy)

  -- `ca_remote_set_archive_fd`, which sets the descriptor of the index
  unfoldable pub set_archive_fd : F → Action (Remote F C) (Unit {0})
  unfolding file_set_fd
  set_archive_fd fd = on_index (file_set_fd fd)
