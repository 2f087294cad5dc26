-- ===== src/Replies/Publishing.antt =====
-- When a reply is published.
