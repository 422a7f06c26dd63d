-- ===== src/Files/Tests.antt =====
-- A file that its uploader lists and deletes.
use lan_secure_file_system.Files.Deletion.{Deletion}
