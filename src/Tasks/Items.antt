-- ===== src/Tasks/Items.antt =====
-- internal/actions/cleanup.go: DefaultCleanupItems, effectiveItems and the choice by ids.
use Prim.Native.String.{◌++◌ as str_append}
use frpilot.Prelude.{String, str_eq, true, false, if◌then◌else◌, List, [], ◌∷◌, ◌++◌}
use frpilot.Tasks.{CleanupItem}

abbrev pub default_cleanup_items : List CleanupItem
default_cleanup_items =
    record {
      id = "page_cache";
      name = "释放内存页缓存";
      risk = "low";
      requires_root = true;
      desc = "sync 并清空 page cache（不影响文件内容）";
      command = "sync; echo 3 > /proc/sys/vm/drop_caches; sync; free -m | head -2";
      preview_cmd = "free -m | head -2";
      timeout = 300;
    }
    ∷ record {
      id = "apt_cache";
      name = "清理 APT 缓存";
      risk = "low";
      requires_root = true;
      desc = "apt-get clean 清除下载的 .deb 包缓存";
      command =
          "du -sh /var/cache/apt/archives 2>/dev/null; apt-get clean 2>&1; echo '--- 清理后 ---'; du -sh /var/cache/apt/archives 2>/dev/null";
      preview_cmd = "du -sh /var/cache/apt/archives 2>/dev/null";
      timeout = 120;
    }
    ∷ record {
      id = "journal";
      name = "压缩系统日志";
      risk = "mid";
      requires_root = true;
      desc = "journalctl vacuum 至 100M";
      command = "journalctl --disk-usage 2>/dev/null; journalctl --vacuum-size=100M 2>&1 | tail -3";
      preview_cmd = "journalctl --disk-usage 2>/dev/null";
      timeout = 120;
    }
    ∷ record {
      id = "user_cache";
      name = "清理用户缓存";
      risk = "mid";
      requires_root = false;
      desc = "删除各登录用户 ~/.cache 内容（pip/npm/临时缓存）";
      command = "du -sh /home/*/.cache 2>/dev/null; rm -rf /home/*/.cache/* 2>/dev/null; echo done";
      preview_cmd = "du -sh /home/*/.cache 2>/dev/null";
      timeout = 120;
    }
    ∷ record {
      id = "tmp_files";
      name = "清理 /tmp 临时文件";
      risk = "high";
      requires_root = true;
      desc = "删除 /tmp 下的临时文件（正在使用的文件不受影响）";
      command =
          "du -sh /tmp 2>/dev/null; find /tmp -type f -atime +1 -delete 2>/dev/null; find /tmp -type d -empty -delete 2>/dev/null; echo done";
      preview_cmd = "du -sh /tmp 2>/dev/null";
      timeout = 120;
    }
    ∷ []

-- config.CustomCleanupItem
pub record CustomCleanupItem : Type 0 where
  pub name : String
  pub desc : String
  pub command : String
  pub risk : String

unfoldable pub custom_item : CustomCleanupItem → CleanupItem
custom_item c = record {
  id = str_append "custom_" c.name;
  name = c.name;
  desc = c.desc;
  risk = if str_eq c.risk "" then "mid" else c.risk;
  requires_root = false;
  command = c.command;
  preview_cmd = "";
  timeout = 120;
}

unfoldable pub custom_items : List CustomCleanupItem → List CleanupItem
unfolding custom_item
custom_items [] = []
custom_items (c ∷ cs) = custom_item c ∷ custom_items cs

unfoldable pub effective_items : List CustomCleanupItem → List CleanupItem
unfolding custom_items
effective_items custom = default_cleanup_items ++ custom_items custom

-- The inner loop: once for each time that the id is given.
unfoldable pub matching : CleanupItem → List String → List CleanupItem
matching it [] = []
matching it (id ∷ ids) = let rest = matching it ids in if str_eq it.id id then it ∷ rest else rest

unfoldable pub filter_items : List CleanupItem → List String → List CleanupItem
unfolding matching
filter_items [] ids = []
filter_items (it ∷ its) ids = matching it ids ++ filter_items its ids

-- All the items if no id is given.
unfoldable pub select_items : List CleanupItem → List String → List CleanupItem
unfolding filter_items
select_items its [] = its
select_items its (id ∷ ids) = filter_items its (id ∷ ids)
