-- ===== src/Delivery/Journal.antt =====
-- `DeliveryJournal` of delivery.py: one envelope, on disk before its request starts.
use technocore_safe_agent.Base.{ℕ, Bool, true, false, Option, none, some, delivery_error}
use technocore_safe_agent.Crypto.Library.{Primitives}
use technocore_safe_agent.World.{json_of, World, File, written}
use technocore_safe_agent.Exec.{
  Exec, Done, pure, raise, lift, gets, modify, try_except, os_error_as, os_call, atomic_write,
  require, ◌>>=◌, ◌>>◌,
}
use technocore_safe_agent.Delivery.{DeliveryRecord, to_payload, from_payload}
use technocore_safe_agent.Delivery

abbrev pub exists : Option File → Bool
exists none = false
exists (some _) = true

-- A system call whose OSError is raised as a DeliveryError.
unfoldable pub guarded_call : Done
unfolding os_call ◌>>=◌
guarded_call = try_except os_call (λ error. raise (os_error_as delivery_error error))

-- `_fsync_directory`
unfoldable pub fsync_directory : Done
unfolding guarded_call
fsync_directory = do guarded_call; guarded_call

abbrev pub set_journal : Option File → World → World
set_journal file w = record w { journal_file = file }

-- `_write`. The mkdir of the parent stands before the try block.
unfoldable pub write : DeliveryRecord → Done
unfolding atomic_write fsync_directory
write record' = do
  os_call
  atomic_write delivery_error (set_journal (some (written (to_payload record'))))
  fsync_directory

unfoldable pub clear : Done
unfolding fsync_directory
clear = do
  file ← gets (λ w. w.journal_file)
  elim file [
    | none ↦ pure tt
    | some _ ↦ do guarded_call; modify (set_journal none); fsync_directory
  ]

module _ (p : Primitives) where
  unfoldable pub load_file : Option File → Exec (Option DeliveryRecord)
  unfolding guarded_call
  load_file none = pure none
  load_file (some file) = do
    -- stat
    guarded_call
    require file.is_private delivery_error
    -- read_text
    guarded_call
    payload ← lift (json_of delivery_error file)
    loaded ← lift (from_payload p payload)
    pure (some loaded)

  unfoldable pub load : Exec (Option DeliveryRecord)
  unfolding load_file
  load = do file ← gets (λ w. w.journal_file); load_file file

  abbrev pub refuse_pending : Option DeliveryRecord → Done
  refuse_pending none = pure tt
  refuse_pending (some _) = raise delivery_error

  unfoldable pub require_empty : Done
  unfolding load
  require_empty = do pending ← load; refuse_pending pending

  abbrev pub or_missing : Option DeliveryRecord → Exec DeliveryRecord
  or_missing none = raise delivery_error
  or_missing (some r) = pure r

  unfoldable pub acknowledge : ℕ → Exec DeliveryRecord
  unfolding load write
  acknowledge reply_sequence = do
    loaded ← load
    r ← or_missing loaded
    acknowledged ← lift (Delivery.acknowledge reply_sequence r)
    write acknowledged
    pure acknowledged

unfoldable pub prepare : DeliveryRecord → Done
unfolding write
prepare r = do
  file ← gets (λ w. w.journal_file)
  elim file [ none ↦ write r | some _ ↦ raise delivery_error ]
