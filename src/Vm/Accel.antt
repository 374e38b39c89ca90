-- ===== src/Vm/Accel.antt =====
-- What `detect_accel` (src/beetroot/vm/qemu.py) chooses on a host.
use beetroot.Prelude.{◌≡◌, ◌≢◌, ◌↔◌, ◌⊎◌, ◌&&◌, Bool, true, false, arith, ok, err, launch_failed}
use beetroot.Config.Schema.{Accel, auto_accel, kvm, tcg}
use beetroot.Vm.{Host}
use beetroot.Vm.Qemu.{kvm_accel, tcg_accel, host_is_guest_arch, detect_accel}

-- KVM can run the guest.
abbrev pub has_kvm : Host → Bool
has_kvm h = host_is_guest_arch h && h.kvm_usable

-- detect_accel gives kvm exactly if KVM can run the guest and tcg was not asked for; it gives tcg
-- exactly if that was asked for, or auto was and KVM cannot run the guest; and it raises exactly if
-- kvm was asked for and cannot run the guest.
pub detect_accel_lem :
    (h : Host) (requested : Accel)
    → ((detect_accel h requested ≡ ok kvm_accel) ↔ ((has_kvm h ≡ true) × (requested ≢ tcg)))
      × ((detect_accel h requested ≡ ok tcg_accel)
          ↔ ((requested ≡ tcg) ⊎ ((requested ≡ auto_accel) × (has_kvm h ≡ false))))
      × ((detect_accel h requested ≡ err launch_failed) ↔ ((requested ≡ kvm) × (has_kvm h ≡ false)))
unfolding detect_accel
detect_accel_lem h tcg = ground arith
detect_accel_lem h kvm = ground arith
detect_accel_lem h auto_accel = ground arith
