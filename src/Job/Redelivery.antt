-- ===== src/Job/Redelivery.antt =====
-- Networks redeliver: what a second delivery of an operation does.
