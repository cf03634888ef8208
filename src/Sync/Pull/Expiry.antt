-- ===== src/Sync/Pull/Expiry.antt =====
-- A client that pages through old rows.
