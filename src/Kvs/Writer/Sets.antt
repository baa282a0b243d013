-- ===== src/Kvs/Writer/Sets.antt =====
-- What the writes of the writer come to.
use key_value_distributed_sy.Base.{◌≡◌, refl, ap, ◌∙◌, none, some, ◌⊎◌, inl, inr, Option-cases}
use key_value_distributed_sy.Base.Maps.{lookup}
use key_value_distributed_sy.Base.Text.{Text, same_text}
use key_value_distributed_sy.Kvs.Errors.{err, panicked, key_not_found}
use key_value_distributed_sy.Kvs.Log.{
  Command, set, remove, CmdMetadata, Codec, LogWriter, to_writer,
}
use key_value_distributed_sy.Kvs.Log.Files.{IsPieced, to_writer-second_byte}
use key_value_distributed_sy.Kvs.Writer.{Shelf, writer_set, writer_remove, remove_present}

module _ (codec : Codec) (pieced : IsPieced codec) where
  to_writer-command : (w : LogWriter) (c : Command) → to_writer w (codec.pieces c) ≡ none
  to_writer-command w c =
      let (brace, quote, pieces, e) = pieced c in
      ap (to_writer w) e ∙ to_writer-second_byte w brace quote pieces

  -- No command can be written, from any state of the store: `set` panics, and so does `remove` of a
  -- key that the index has, both without a change of the index; `remove` of another key answers that
  -- it is not found, and changes nothing. It holds when serde_json writes the first two bytes of a
  -- command as pieces of their own.
  pub writer_panics :
      (s : Shelf) (key value : Text)
      → (((writer_set codec s key value).1 ≡ panicked)
          × ((writer_set codec s key value).0.kv.index ≡ s.kv.index))
        × (((cmd : CmdMetadata) × (lookup same_text key s.kv.index ≡ some cmd)
              × ((writer_remove codec s key).1 ≡ panicked)
              × ((writer_remove codec s key).0.kv.index ≡ s.kv.index))
            ⊎ ((lookup same_text key s.kv.index ≡ none)
                × (writer_remove codec s key ≡ (s, err key_not_found))))
  unfolding writer_set writer_remove
  writer_panics s key value =
      let set_at = to_writer-command s.kv.writer (set key value) in
      let remove_at = to_writer-command s.kv.writer (remove key) in
      (
        (rw (writer_set, set_at) refl, rw (writer_set, set_at) refl),
        elim (Option-cases (lookup same_text key s.kv.index)) [
          | inl e ↦ inr (e, rw e refl)
          | inr (cmd, e) ↦ inl (
            cmd,
            e,
            rw (e, remove_present, remove_at) refl,
            rw (e, remove_present, remove_at) refl,
          )
        ],
      )
