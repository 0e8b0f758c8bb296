-- ===== src/Driver/Gic/Handling.antt =====
-- From an interrupt to the drivers that are registered for it:
-- kernel/src/drivers/irq/gicv2/mod.rs, `register_and_enable_local_irq` and `handle_pending_irqs`.
