-- ===== src/Session/Valid/Methods.antt =====
-- The methods but for those of the scan and of the cheats, and the invariant of the watches and
-- the freezes.
use nite_pr.Base.{Bool-cases, inl, inr, ℕ, Bool, true, false, Option, none, some, List, [], ◌∷◌}
use nite_pr.Base.Text.{Text}
use nite_pr.Base.Exec.{modify}
use nite_pr.Base.Exec.Keeps.{Keeps-modify, Keeps-pure, Keeps-bind, Keeps-bind-lift}
use nite_pr.Types.{Dyn, MemoryMap, ProcessInfo, ForegroundInfo, WatchEntry, FreezeEntry}
use nite_pr.Transport.{Transport}
use nite_pr.Session.{require_addr}
use nite_pr.Session.Connect.{
  differs, drop_scan, forget, retarget, end_scan, disconnect, connect, foreground, title_of,
  title_all, processes, attach_target,
}
use nite_pr.Session.Memory.{or_fetch, maps, read, write}
use nite_pr.Session.Pins.{
  watch_add, freeze_add, watches, freezes, poll_all, poll_some, watch_poll, write_all, write_some,
  freeze_tick, watch_size, freeze_payload,
}
use nite_pr.Session.Valid.Rules.{
  valid_rules, via-IsValid, require_connected-IsValid, resolve_pid-IsValid,
}
use nite_pr.Session.Valid.{
  KeepsValid, clear_pins-IsValid, store_watch-IsValid, store_freeze-IsValid, watch_size_ok,
  freeze_payload_ok, require_addr_ok,
}

module _ {T : Type 0} where
  drop_scan-IsValid : KeepsValid {T = T} (modify drop_scan)
  drop_scan-IsValid = Keeps-modify drop_scan (λ s h. h)

  forget-IsValid : KeepsValid {T = T} (modify forget)
  forget-IsValid = Keeps-modify forget (λ s h. clear_pins-IsValid s)

  retarget-IsValid : (pid : ℕ) → KeepsValid {T = T} (modify (retarget pid))
  retarget-IsValid pid = Keeps-modify (retarget pid) λ s h.
      elim (Bool-cases (differs pid s.target_pid)) [
        | inl other ↦ rw other (clear_pins-IsValid s)
        | inr same ↦ rw same h
      ]

module _ {T : Type 0} (tr : Transport T) (me : ℕ) where
  pub end_scan-IsValid : (silent : Bool) → KeepsValid (end_scan tr me silent)
  unfolding end_scan
  end_scan-IsValid true = search (valid_rules, drop_scan-IsValid)
  end_scan-IsValid false = search (valid_rules, drop_scan-IsValid)

  pub disconnect-IsValid : KeepsValid (disconnect tr me)
  unfolding disconnect
  disconnect-IsValid = search (valid_rules, end_scan-IsValid, forget-IsValid)

  pub connect-IsValid : (name : Text) → KeepsValid (connect tr me name)
  unfolding connect
  connect-IsValid name = search (valid_rules, disconnect-IsValid)

  title_of-IsValid :
      (fg : Option ForegroundInfo) (p : ProcessInfo) → KeepsValid (title_of tr me fg p)
  unfolding title_of
  title_of-IsValid fg p = search valid_rules

  title_all-IsValid :
      (fg : Option ForegroundInfo) (ps : List ProcessInfo) → KeepsValid (title_all tr me fg ps)
  unfolding title_all
  title_all-IsValid fg [] = search valid_rules
  title_all-IsValid fg (p ∷ ps) =
      Keeps-bind _ _ (title_of-IsValid fg p)
        (λ t. Keeps-bind _ _ (title_all-IsValid fg ps) (λ r. Keeps-pure _))

  pub processes-IsValid : KeepsValid (processes tr me)
  unfolding processes
  processes-IsValid = search (valid_rules, title_all-IsValid) depth 9

  pub foreground-IsValid : KeepsValid (foreground tr me)
  unfolding foreground
  foreground-IsValid = search valid_rules

  pub attach_target-IsValid : (pid : Dyn) → KeepsValid (attach_target tr me pid)
  unfolding attach_target
  attach_target-IsValid pid = search (valid_rules, retarget-IsValid)

  or_fetch-IsValid :
      (pid : ℕ) (entry : Option (List MemoryMap)) → KeepsValid (or_fetch tr me pid entry)
  unfolding or_fetch
  or_fetch-IsValid pid none = search valid_rules
  or_fetch-IsValid pid (some rows) = search valid_rules

  pub maps-IsValid : (pid : Dyn) (refresh : Bool) → KeepsValid (maps tr me pid refresh)
  unfolding maps
  maps-IsValid pid refresh = search (valid_rules, or_fetch-IsValid)

  pub read-IsValid : (pid addr n : Dyn) → KeepsValid (read tr me pid addr n)
  unfolding read
  read-IsValid pid addr n = search valid_rules depth 8

  pub write-IsValid : (pid addr content : Dyn) → KeepsValid (write tr me pid addr content)
  unfolding write
  write-IsValid pid addr content = search valid_rules depth 8

  pub watch_add-IsValid :
      (pid addr n : Dyn) (label : Text) → KeepsValid (watch_add tr me pid addr n label)
  unfolding watch_add
  watch_add-IsValid pid addr n label =
      Keeps-bind-lift (λ s h. h) (watch_size n) _
        λ size p.
          Keeps-bind-lift (λ s h. h) (require_addr addr) _
            λ a q. Keeps-bind _ _ (require_connected-IsValid tr) λ _.
              Keeps-bind _ _ (resolve_pid-IsValid pid) λ i.
                store_watch-IsValid i a size label (watch_size_ok n size p)
                  (require_addr_ok addr a q)

  pub freeze_add-IsValid : (pid addr content : Dyn) → KeepsValid (freeze_add tr me pid addr content)
  unfolding freeze_add
  freeze_add-IsValid pid addr content =
      Keeps-bind-lift (λ s h. h) (freeze_payload content) _
        λ bs p.
          Keeps-bind-lift (λ s h. h) (require_addr addr) _
            λ a q.
              let (lo, hi) = freeze_payload_ok content bs p in
              Keeps-bind _ _ (require_connected-IsValid tr) λ _.
                Keeps-bind _ _ (resolve_pid-IsValid pid)
                  λ i. store_freeze-IsValid i a bs lo hi (require_addr_ok addr a q)

  poll_all-IsValid : (ws : List WatchEntry) → KeepsValid (poll_all tr me ws)
  unfolding poll_all
  poll_all-IsValid [] = Keeps-pure _
  poll_all-IsValid (w ∷ ws) =
      Keeps-bind _ _ (via-IsValid _) (λ c. Keeps-bind _ _ (poll_all-IsValid ws) (λ r. Keeps-pure _))

  poll_some-IsValid : (ws : List WatchEntry) → KeepsValid (poll_some tr me ws)
  unfolding poll_some
  poll_some-IsValid [] = search valid_rules
  poll_some-IsValid (w ∷ ws) = search (valid_rules, poll_all-IsValid)

  pub watch_poll-IsValid : KeepsValid (watch_poll tr me)
  unfolding watch_poll watches
  watch_poll-IsValid = search (valid_rules, poll_some-IsValid)

  write_all-IsValid : (fs : List FreezeEntry) → KeepsValid (write_all tr me fs)
  unfolding write_all
  write_all-IsValid [] = Keeps-pure _
  write_all-IsValid (f ∷ fs) =
      Keeps-bind _ _ (via-IsValid _)
        (λ c. Keeps-bind _ _ (write_all-IsValid fs) (λ r. Keeps-pure _))

  write_some-IsValid : (fs : List FreezeEntry) → KeepsValid (write_some tr me fs)
  unfolding write_some
  write_some-IsValid [] = search valid_rules
  write_some-IsValid (f ∷ fs) = search (valid_rules, write_all-IsValid)

  pub freeze_tick-IsValid : KeepsValid (freeze_tick tr me)
  unfolding freeze_tick freezes
  freeze_tick-IsValid = search (valid_rules, write_some-IsValid)
