-- ===== src/Wal/Writer/Acknowledged.antt =====
-- An acknowledged record stays in the segment that was current at its call.
use selfstack.Prelude.{
  ℕ, ◌≡◌, refl, sym, ap, ◌∙◌, List, [], ◌∷◌, ◌++◌, take, true, some, ok, err, if-split, arith,
  Option-cases, inl, inr, All, Any, All-append, append-nil, subst,
}
use selfstack.Prelude.Maps.{insert, lookup-insert, beq_refl}
use selfstack.Bytes.{Bytes, IsByte}
use selfstack.Wal.Record.{Record, IsWellFormed, new_record, encode}
use selfstack.Wal.Reader.Whole.{encode_all}
use selfstack.Wal.Tail.Repair.{readable}
use selfstack.Wal.Manifest.{ManifestStore}
use selfstack.Wal.Manifest.Keys.{nat_eq}
use selfstack.Wal.Writer.{Io, WalWriter, Outcome, and_then, content, write_data, take_lsn}
use selfstack.Wal.Writer.Commands.{Acknowledged, FailsAtOnce, IsAtomic}
use selfstack.Wal.Writer.Held.{
  Held, Held-forget, Kept-insert, readable-encode_all, encode_all-snoc, Any-left, Any-last,
}
use selfstack.Wal.Writer.Rotation.{content-some}

pub new_record-fields :
    (type lsn : ℕ) (payload : Bytes) (rec : Record)
    → new_record type lsn payload ≡ ok rec
    → (rec.type ≡ type) × (rec.flags ≡ 0) × (rec.payload ≡ payload)
unfolding new_record
new_record-fields type lsn payload rec e = ground arith

module _ (M : ManifestStore) (acks : List Acknowledged) where
  -- One more record at the end of the current segment.
  write-Held :
      (w : WalWriter M) (rec : Record)
      → Held M acks w
      → w.is_open ≡ true
      → IsWellFormed rec
      → All IsByte (encode rec)
      → Held M ((w.segment_id, rec) ∷ acks) (record w {
        files = insert w.segment_id (content M w.segment_id w.files ++ encode rec) w.files;
      })
  write-Held w rec h is_open wf b =
      let (rs, found, wfs) = h.current is_open in
      let all_wf = All-append IsWellFormed rs (rec ∷ []) wfs (wf, tt) in
      let before = content-some M acks w.segment_id w.files (encode_all rs) found in
      let after : content M w.segment_id w.files ++ encode rec ≡ encode_all (rs ++ (rec ∷ [])) =
        ap (λ t. t ++ encode rec) before ∙ encode_all-snoc rs rec in
      let file = content M w.segment_id w.files ++ encode rec in
      let seen : readable file ≡ rs ++ (rec ∷ []) =
        ap readable after ∙ readable-encode_all (rs ++ (rec ∷ [])) all_wf in
      let here =
        lookup-insert w.segment_id w.segment_id file w.files ∙ rw (beq_refl w.segment_id) refl in
      let old_bytes = h.kept.all_bytes w.segment_id (encode_all rs) found in
      let k =
        Kept-insert M acks w w.segment_id file h.kept
          (All-append IsByte (content M w.segment_id w.files) (encode rec)
            (subst (All IsByte) (sym before) old_bytes) b)
          (λ old r f m. subst (Any (λ x. x ≡ r)) (sym seen) (
            Any-left r rs (rec ∷ []) (
              subst (Any (λ x. x ≡ r))
                (ap readable (sym (content-some M acks w.segment_id w.files old f) ∙ before)
                  ∙ readable-encode_all rs wfs)
                m))) in
      record {
        kept = record {
          all_bytes = k.all_bytes;
          lsn = k.lsn;
          kept = ((file, here, subst (Any (λ x. x ≡ rec)) (sym seen) (Any-last rec rs)), k.kept);
        };
        current = λ _. (rs ++ (rec ∷ []), here ∙ ap some after, all_wf);
      }

  -- Nothing is added to the file by a write that fails at once.
  write_nothing-Held :
      (w : WalWriter M) (data_bytes : Bytes)
      → Held M acks w
      → w.is_open ≡ true
      → Held M acks (record w {
        files = insert w.segment_id (content M w.segment_id w.files ++ take 0 data_bytes) w.files;
      })
  write_nothing-Held w data_bytes h is_open =
      let (rs, found, wfs) = h.current is_open in
      let file = content M w.segment_id w.files ++ [] in
      let before = content-some M acks w.segment_id w.files (encode_all rs) found in
      let same : file ≡ encode_all rs = append-nil (content M w.segment_id w.files) ∙ before in
      let here =
        lookup-insert w.segment_id w.segment_id file w.files ∙ rw (beq_refl w.segment_id) refl in
      let k =
        Kept-insert M acks w w.segment_id file h.kept
          (subst (All IsByte) (sym same) (h.kept.all_bytes w.segment_id (encode_all rs) found))
          (λ old r f m.
            subst (Any (λ x. x ≡ r))
              (ap readable (
                sym (content-some M acks w.segment_id w.files old f)
                ∙ sym (append-nil (content M w.segment_id w.files))))
              m) in
      record {
        kept = record { all_bytes = k.all_bytes; lsn = k.lsn; kept = k.kept };
        current = λ _. (rs, here ∙ ap some same, wfs);
      }

  module _ (id : ℕ) (rec : Record) where
    -- After an operation that appends the record: it is there if no error came back.
    abbrev pub Written : {A : Type 0} → Outcome M A → Type 0
    Written (w, ok a) = Held M ((id, rec) ∷ acks) w
    Written (w, err e) = Held M acks w

    -- And after a call that returns its LSN.
    abbrev pub Answered : ℕ → Outcome M ℕ → Type 0
    Answered lsn (w, ok returned) = (returned ≡ lsn) × Held M ((id, rec) ∷ acks) w
    Answered lsn (w, err e) = Held M acks w

    pub and_then-Written :
        (lsn : ℕ) (o : Outcome M (Unit {0})) (f : WalWriter M → Unit {0} → Outcome M ℕ)
        → Written o
        → ((w : WalWriter M) → Held M ((id, rec) ∷ acks) w → Answered lsn (f w tt))
        → Answered lsn (and_then M o f)
    and_then-Written lsn (w, ok a) f h next = next w h
    and_then-Written lsn (w, err e) f h next = h

    pub and_then-Held :
        (lsn : ℕ) (o : Outcome M (Unit {0})) (f : WalWriter M → Unit {0} → Outcome M ℕ)
        → Held M ((id, rec) ∷ acks) o.0
        → ((w : WalWriter M) → Held M ((id, rec) ∷ acks) w → Answered lsn (f w tt))
        → Answered lsn (and_then M o f)
    and_then-Held lsn (w, ok a) f h next = next w h
    and_then-Held lsn (w, err e) f h next = Held-forget M (id, rec) acks w h

  pub write_data-Written :
      (io : Io) (w : WalWriter M) (rec : Record)
      → IsAtomic io
      → Held M acks w
      → IsWellFormed rec
      → All IsByte (encode rec)
      → Written w.segment_id rec (write_data M io (encode rec) w)
  unfolding write_data
  write_data-Written io w rec atomic h wf b =
      if-split (Written w.segment_id rec) w.is_open _ _
        (λ is_open. elim (Option-cases io.write_fails) [
          | inl works ↦ rw works (write-Held w rec h is_open wf b)
          | inr (n, fails) ↦
              rw (fails, subst FailsAtOnce fails atomic)
                (write_nothing-Held w (encode rec) h is_open)
        ])
        (λ shut. h)

  pub take_lsn-Held : (w : WalWriter M) → Held M acks w → Held M acks (take_lsn M w)
  unfolding take_lsn
  take_lsn-Held w h = record {
    kept = record { all_bytes = h.kept.all_bytes; lsn = omega arith; kept = h.kept.kept };
    current = h.current;
  }
