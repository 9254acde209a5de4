-- ===== src/Files/Expiry.antt =====
-- No drop stays for ever: whatever the transactions do, a late enough sweep removes it.
use rustdesk_managed_directo.Common.{
  ℕ, String, ◌≡◌, refl, sym, ap, ◌∙◌, Bool, true, false, not, Option, none, some, List, [], ◌∷◌,
  ◌==◌, arith, inl, inr, if◌then◌else◌, Bool-cases, is_null, All, All-update_where, All-find_where,
  find_where, update_where,
}
use rustdesk_managed_directo.Http.{http, pure, raise_if, ◌>>=◌, ◌>>◌}
use rustdesk_managed_directo.Http.Keeps.{
  Ends, Keeps, Keeps-pure, Keeps-raise, Keeps-gets, Keeps-modify, Keeps-raise_if, Keeps-if,
  Keeps-bind,
}
use rustdesk_managed_directo.Store.Queries.{found}
use rustdesk_managed_directo.Store.Rules.{Keeps-found}
use rustdesk_managed_directo.Files.{
  DropStatus, uploading, complete, delivered, failed, declined, Drop, Files, Reading, is_complete,
  is_delivered,
}
use rustdesk_managed_directo.Files.Settings.{or_raise, get_int_setting, get_ttl}
use rustdesk_managed_directo.Files.Drops.{
  create_drop, fetch_drop, update_drop, finished, finish_upload, mark_drop_failed, touch_upload,
  renew_ttl, download_drop, deliver, complete_drop,
}
use rustdesk_managed_directo.Files.Relay.{
  StorageReply, unreachable, mismatch, gone, rejected, stored, end_whole_upload, end_part_upload,
}

-- The drop can be swept: it has an end, or is at a stage that the backstop ends.
abbrev pub is_perishable : DropStatus → Option ℕ → Bool
is_perishable uploading e = true
is_perishable failed e = true
is_perishable complete e = not (is_null e)
is_perishable delivered e = not (is_null e)
is_perishable declined e = false

abbrev pub Perishable : Files → Type 0
Perishable files = All (λ d. is_perishable d.status d.expires_at ≡ true) files.drops

-- A change of the drops that keeps each of them perishable.
update-Perishable :
    (p : Drop → Bool) (f : Drop → Drop)
    → ((d : Drop)
        → is_perishable d.status d.expires_at ≡ true
        → p d ≡ true
        → is_perishable (f d).status (f d).expires_at ≡ true)
    → (files : Files) → Perishable files
    → Perishable (record files { drops = update_where p f files.drops })
update-Perishable p f h files k = All-update_where p f h (λ d e _. e) files.drops k

-- An update of a row that is perishable afterwards.
update_drop-Perishable :
    (id : ℕ) (f : Drop → Drop) (drops : List Drop)
    → ((d : Drop)
        → find_where (λ e. e.id == id) drops ≡ some d
        → is_perishable (f d).status (f d).expires_at ≡ true)
    → All (λ d. is_perishable d.status d.expires_at ≡ true) drops
    → All (λ d. is_perishable d.status d.expires_at ≡ true) (update_drop id f drops)
unfolding update_drop find_where
update_drop-Perishable id f [] h k = tt
update_drop-Perishable id f (d ∷ ds) h k = elim (Bool-cases (d.id == id)) [
  | inl e ↦ rw e (h d (rw e refl), k.1)
  | inr e ↦ rw e (k.0, update_drop-Perishable id f ds (λ c q. h c (rw e q)) k.1)
]

or_raise-Keeps :
    (P : Files → Type 0) (r : Files → Option ℕ) → Keeps P (λ files. or_raise (r files) files)
unfolding ◌>>=◌
or_raise-Keeps P r = record { at = λ files h. go files h (r files) }
  where
    go : (files : Files) → P files → (o : Option ℕ) → Ends (λ _ t. P t) (or_raise o files)
    go files h none = tt
    go files h (some n) = h

module _ (reading : Reading) where
  pub get_ttl-Keeps : (P : Files → Type 0) → Keeps P (get_ttl reading)
  unfolding get_ttl
  get_ttl-Keeps P = or_raise-Keeps P _

  pub get_int-Keeps :
      (P : Files → Type 0) (key : String) (n : ℕ) → Keeps P (get_int_setting reading key n)
  unfolding get_int_setting
  get_int-Keeps P key n = or_raise-Keeps P _

  pub finish-Keeps :
      (now id bytes : ℕ) (digest : Option String)
      → Keeps Perishable (finish_upload reading now id bytes digest)
  unfolding finish_upload
  finish-Keeps now id bytes digest =
      Keeps-bind _ _ (get_ttl-Keeps Perishable)
        λ ttl. Keeps-modify _ (λ files. update_drop-Perishable id _ files.drops (λ d q. refl))

  pub fail-Keeps : (now id : ℕ) → Keeps Perishable (mark_drop_failed now id)
  unfolding mark_drop_failed
  fail-Keeps now id =
      Keeps-modify _ (λ files. update_drop-Perishable id _ files.drops (λ d q. refl))

  pub touch-Keeps : (now id : ℕ) → Keeps Perishable (touch_upload now id)
  unfolding touch_upload
  touch-Keeps now id = Keeps-modify _ (λ files h.
      update_drop-Perishable id _ files.drops
        (λ d q.
          All-find_where (λ e. is_perishable e.status e.expires_at ≡ true) (λ e. e.id == id)
            files.drops h q)
        h)

  pub end_whole-Keeps :
      (now id : ℕ) (reply : StorageReply) → Keeps Perishable (end_whole_upload reading now id reply)
  unfolding end_whole_upload
  end_whole-Keeps now id (stored bytes full digest) =
      Keeps-bind _ _ (finish-Keeps now id bytes digest)
        λ _. Keeps-bind _ _ (Keeps-found Perishable _ _) λ drop. Keeps-pure _
  end_whole-Keeps now id unreachable = Keeps-bind _ _ (fail-Keeps now id) λ _. Keeps-pure _
  end_whole-Keeps now id mismatch = Keeps-bind _ _ (fail-Keeps now id) λ _. Keeps-pure _
  end_whole-Keeps now id gone = Keeps-bind _ _ (fail-Keeps now id) λ _. Keeps-pure _
  end_whole-Keeps now id rejected = Keeps-bind _ _ (fail-Keeps now id) λ _. Keeps-pure _

  pub end_part-Keeps :
      (now id : ℕ) (reply : StorageReply) → Keeps Perishable (end_part_upload reading now id reply)
  unfolding end_part_upload
  end_part-Keeps now id (stored offset true digest) =
      Keeps-bind _ _ (finish-Keeps now id offset digest) λ _. Keeps-pure _
  end_part-Keeps now id (stored offset false digest) =
      Keeps-bind _ _ (touch-Keeps now id) λ _. Keeps-pure _
  end_part-Keeps now id unreachable = Keeps-raise _
  end_part-Keeps now id mismatch = Keeps-raise _
  end_part-Keeps now id gone = Keeps-bind _ _ (fail-Keeps now id) λ _. Keeps-pure _
  end_part-Keeps now id rejected = Keeps-raise _

  pub fetch-Keeps : (P : Files → Type 0) (id : ℕ) → Keeps P (fetch_drop id)
  unfolding fetch_drop
  fetch-Keeps P id = Keeps-found P _ _

  pub renew-Keeps : (now id : ℕ) → Keeps Perishable (renew_ttl reading now id)
  unfolding renew_ttl
  renew-Keeps now id =
      Keeps-bind _ _ (get_ttl-Keeps Perishable)
        λ ttl. Keeps-modify _ (update-Perishable _ _ (λ d e p. ground arith))

  pub download-Keeps :
      (now id self : ℕ) (range : Option String)
      → Keeps Perishable (download_drop reading now id self range)
  unfolding download_drop
  download-Keeps now id self range = Keeps-bind _ _ (fetch-Keeps Perishable id) λ drop.
      Keeps-bind _ _ (Keeps-raise_if _ _) λ _.
        Keeps-bind _ _ (Keeps-raise_if _ _)
          λ _. Keeps-if _ _ _ (Keeps-bind _ _ (renew-Keeps now id) λ _. Keeps-pure _) (Keeps-pure _)

  pub create-Keeps :
      (id key now self recipient : ℕ) (filename : String) (size : ℕ) (public_key : String)
      → Keeps Perishable (create_drop reading id key now self recipient filename size public_key)
  unfolding create_drop
  create-Keeps id key now self recipient filename size public_key =
      Keeps-bind _ _ (Keeps-raise_if _ _) λ _.
        Keeps-bind _ _ (get_int-Keeps Perishable _ _) λ max_size.
          Keeps-bind _ _ (Keeps-raise_if _ _) λ _. Keeps-bind _ _ (Keeps-gets _) λ registrations.
            Keeps-bind _ _ (Keeps-gets _) λ devices.
              Keeps-bind _ _ (Keeps-raise_if _ _)
                λ _. Keeps-bind _ _ (Keeps-modify _ (λ files h. (refl, h))) λ _. Keeps-pure _

complete-expires :
    (s : DropStatus) (x : Option ℕ)
    → is_complete s ≡ true
    → is_perishable s x ≡ true
    → not (is_null x) ≡ true
complete-expires s x c p = ground (arith, c, p)

deliver-Perishable :
    (now id : ℕ) (d : Drop) (files : Files)
    → find_where (λ e. e.id == id) files.drops ≡ some d
    → is_complete d.status ≡ true
    → Perishable files
    → Ends (λ _ t. Perishable t) (deliver now id d files)
unfolding deliver ◌>>=◌
deliver-Perishable now id d files found_d done_d h =
    update_drop-Perishable id (λ e. record e { status = delivered; updated_at = now }) files.drops
      (λ e q.
        let same : e ≡ d = (let k : some e ≡ some d = sym q ∙ found_d in cc k) in
        let p =
          All-find_where (λ c. is_perishable c.status c.expires_at ≡ true) (λ c. c.id == id)
            files.drops h q in
        complete-expires e.status e.expires_at
          (ap (λ (c : Drop). is_complete c.status) same ∙ done_d) p)
      h

pub complete_drop-Keeps : (now id self : ℕ) → Keeps Perishable (complete_drop now id self)
unfolding complete_drop fetch_drop ◌>>=◌
complete_drop-Keeps now id self = record {
  at = λ files h. go files h (find_where (λ d. d.id == id) files.drops) refl;
}
  where
    branch :
        (files : Files) (d : Drop)
        → Perishable files
        → find_where (λ e. e.id == id) files.drops ≡ some d
        → (recipient finished complete_now : Bool) → is_complete d.status ≡ complete_now
        → Ends
            (λ _ t. Perishable t)
            ((raise_if (not recipient) (http 404 "Drop not found")
                >> (if finished
                    then pure d
                    else (raise_if (not complete_now) (http 409 "Drop cannot be marked delivered")
                        >> deliver now id d)))
              files)
    branch files d h e false finished complete_now c = tt
    branch files d h e true true complete_now c = h
    branch files d h e true false false c = tt
    branch files d h e true false true c = deliver-Perishable now id d files e c h

    go :
        (files : Files)
        → Perishable files
        → (r : Option Drop) → find_where (λ d. d.id == id) files.drops ≡ r
        → Ends
            (λ _ t. Perishable t)
            (((λ s. found r (http 404 "Drop not found") s) >>= λ drop.
                raise_if (not (drop.recipient_device_id == self)) (http 404 "Drop not found")
                >> (if is_delivered drop.status
                    then pure drop
                    else (raise_if
                          (not (is_complete drop.status))
                          (http 409 "Drop cannot be marked delivered")
                        >> deliver now id drop)))
              files)
    go files h none e = tt
    go files h (some d) e =
        branch files d h e (d.recipient_device_id == self) (is_delivered d.status)
          (is_complete d.status) refl
